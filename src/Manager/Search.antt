-- ===== src/Manager/Search.antt =====
-- `Search`, `SearchShard` and `ResolveUniqueShard` of internal/engine/manager.go.
pub mod Results
pub mod Resolving
use vectory.Base.{
  ◌≡◌, ◌⊎◌, Bool, true, false, List, [], ◌∷◌, Option, none, some, Bytes, bytes_key, load, ℤ, leb_ℤ,
  length, ◌==◌, ◌&&◌, ◌>>=◌, if◌then◌else◌,
}
use vectory.Errors.{
  Err, shard_not_found, index_not_found, output_dimension, resolve_index_shard, is_shard_not_found,
  Result, ok, err,
}
use vectory.Shard.{
  Shard, IndexManifest, unique_shard_key, generate_unique_shards, generate_replica_keys,
}
use vectory.Faiss.{Library, Float32}
use vectory.Index
use vectory.Index.{Index}
use vectory.Cluster.{Routing}
use vectory.Manager.{IndexManager, Mode, single, cluster, is_cluster}

pub record Label : Type 0 where
  pub distance : Float32
  pub label : Bytes

pub record SearchResult : Type 0 where
  pub shard : Shard
  pub error : Option Err
  pub result : List Label
  pub to_route : Bool

-- Distances and labels side by side; they are equally many.
unfoldable pub pair_up : List Float32 → List Bytes → List Label
pair_up (d ∷ ds) (l ∷ ls) = record { distance = d; label = l } ∷ pair_up ds ls
pair_up _ _ = []

abbrev failure : Shard → Err → SearchResult × Option Err
failure s e = (record { shard = s; error = some e; result = []; to_route = false }, some e)

label_result : Shard → Result (List Float32 × List Bytes) → SearchResult × Option Err
label_result s (err e) = failure s e
label_result s (ok (ds, ls)) =
    if length ds == length ls
    then (record { shard = s; error = none; result = pair_up ds ls; to_route = false }, none)
    else failure s output_dimension

search_loaded : Library → Shard → List Float32 → ℤ → Option Index → SearchResult × Option Err
unfolding label_result
search_loaded lib s x k none = failure s shard_not_found
search_loaded lib s x k (some idx) = label_result s (Index.search lib idx x k)

-- `SearchShard`
unfoldable pub search_shard :
    Library → IndexManager → Shard → List Float32 → ℤ → SearchResult × Option Err
unfolding search_loaded
search_shard lib i s x k = search_loaded lib s x k (load (unique_shard_key s) i.engine_store)

route_missing : Mode → Shard → SearchResult × Option Err → SearchResult
route_missing m s (r, none) = r
route_missing m s (r, some e) =
    if is_cluster m && is_shard_not_found e
    then record { shard = s; error = none; result = []; to_route = true }
    else r

search_shards : Library → IndexManager → List Shard → List Float32 → ℤ → List SearchResult
unfolding route_missing
search_shards lib i [] x k = []
search_shards lib i (s ∷ ss) x k =
    route_missing i.mode s (search_shard lib i s x k) ∷ search_shards lib i ss x k

search_manifest :
    Library
    → IndexManager
    → List Float32
    → ℤ
    → Option IndexManifest
    → Option (Result (List SearchResult))
unfolding search_shards
search_manifest lib i x k none = some (err index_not_found)
search_manifest lib i x k (some m) = do
  ss ← generate_unique_shards m
  some (ok (search_shards lib i ss x k))

-- `Search`; `none` is a panic.
unfoldable pub search :
    Library → IndexManager → Bytes → List Float32 → ℤ → Option (Result (List SearchResult))
unfolding search_manifest
search lib i name x k = search_manifest lib i x k (load name i.index_manifests)

-- The loop over the replicas; `route` is Route of the cluster manager.
unfoldable pub route_replicas :
    (Bytes → Option Routing × Option Err) → List Bytes → List (Option Routing)
route_replicas route [] = []
route_replicas route (k ∷ ks) =
    let rest = route_replicas route ks in
    elim (route k).1 [ none ↦ (route k).0 ∷ rest | some e ↦ rest ]

resolve_in :
    (Bytes → Option Routing × Option Err)
    → Shard
    → Option IndexManifest
    → Option (Result (List (Option Routing)))
resolve_in route s none = some (err resolve_index_shard)
resolve_in route s (some m) =
    if leb_ℤ m.meta.shards s.shard_id
    then some (err resolve_index_shard)
    else (generate_replica_keys s m.meta.replicas >>= λ ks. some (ok (route_replicas route ks)))

-- `ResolveUniqueShard`; `none` is a panic. The errors of single replicas are logged only: the
-- error that is returned is never one of theirs.
unfoldable pub resolve_unique_shard :
    (Bytes → Option Routing × Option Err)
    → IndexManager
    → Shard
    → Option (Result (List (Option Routing)))
unfolding resolve_in
resolve_unique_shard route i s = resolve_in route s (load s.index_name i.index_manifests)
