-- ===== src/Manager.antt =====
-- internal/engine/manager.go: the state of the IndexManager, and loading and deleting an index. The
-- shards that the hash ring gives to this node are an argument, a test on shard keys.
pub mod Search
pub mod Rebalance
pub mod Revision
pub mod Start
pub mod Handles
pub mod Schedule
pub mod Life
use vectory.Base.{
  ℕ, suc, ◌+◌, ◌≡◌, refl, Bool, true, false, not, List, [], ◌∷◌, Option, none, some, Bytes,
  bytes_key, Map, load, store, delete, ◌>>=◌, if◌then◌else◌,
}
use vectory.Errors.{Err, cluster_not_initialised, Result, ok, err}
use vectory.Status.{NodeStatus, Status, same_status, set_status}
use vectory.Shard.{
  Shard, IndexManifest, shard_key, unique_shard_key, shard_as_key, generate_shards,
  generate_unique_shards, validate,
}
use vectory.Faiss.{Native, Loader}
use vectory.Index
use vectory.Index.{Index, Scheduler, new_index, set_cluster_reload_callback}

pub data Mode : Type 0 where
  single cluster : Mode

-- The manager with what its methods change beside it: the status of the node and the handles of
-- the native library.
pub record IndexManager : Type 0 where
  pub engine_store : Map Bytes Index
  pub index_manifests : Map Bytes IndexManifest
  pub pending_shards : Map Shard Bool
  pub mode : Mode
  pub status : Status
  pub native : Native

-- What `NewIndex` calls.
pub record Tools : Type 0 where
  pub loader : Loader
  pub scheduler : Scheduler

abbrev pub is_cluster : Mode → Bool
is_cluster single = false
is_cluster cluster = true

unfoldable pub mark_shard_pending : Shard → IndexManager → IndexManager
mark_shard_pending s i = record i {
  pending_shards = store s true i.pending_shards;
  status =
      if same_status i.status.current NodeStatus.healthy
      then set_status NodeStatus.unhealthy i.status
      else i.status;
}

abbrev pub no_entry : {K V : Type 0} → Map K V → Bool
no_entry [] = true
no_entry (e ∷ m) = false

abbrev is_some : {A : Type 0} → Option A → Bool
is_some none = false
is_some (some a) = true

unfoldable pub unmark_shard_pending : Shard → IndexManager → IndexManager
unmark_shard_pending s i =
    let left = delete s i.pending_shards in
    if is_some (load s i.pending_shards)
    then record i {
      pending_shards = left;
      status =
          if no_entry left
          then (if same_status i.status.current NodeStatus.unhealthy
              then set_status NodeStatus.healthy i.status
              else i.status)
          else i.status;
    }
    else i

-- The manager and the two counters of `loadIndex`.
pub record Progress : Type 0 where
  pub manager : IndexManager
  pub total : ℕ
  pub success : ℕ

-- In cluster mode the reload callback is replaced before the index is stored.
abbrev pub prepared : Mode → Index → Bytes → Index
prepared single x name = x
prepared cluster x name = set_cluster_reload_callback x name

abbrev pub with_index : IndexManager → Bytes → Index → Native → IndexManager
with_index i key x n = record i { engine_store = store key x i.engine_store; native = n }

put_loaded : IndexManifest → Shard → Progress → Native × Result Index → Progress
put_loaded m s p (n, err e) = record p {
  manager = mark_shard_pending s (record p.manager { native = n });
}
put_loaded m s p (n, ok x) = record p {
  manager = with_index p.manager (unique_shard_key s) (prepared p.manager.mode x m.meta.name) n;
  success = suc p.success;
}

load_missing :
    Tools → IndexManifest → (Bytes → Bool) → Shard → Progress → Option Index → Option Progress
unfolding put_loaded
load_missing t m need s p (some x) = some p
load_missing t m need s p none =
    if need (shard_key s)
    then (new_index t.loader t.scheduler m s p.manager.native >>= λ r.
        some (put_loaded m s (record p { total = suc p.total }) r))
    else some p

unfoldable pub load_shard :
    Tools → IndexManifest → (Bytes → Bool) → Shard → Progress → Option Progress
unfolding load_missing
load_shard t m need s p =
    load_missing t m need s p (load (unique_shard_key s) p.manager.engine_store)

unfoldable pub load_shards :
    Tools → IndexManifest → (Bytes → Bool) → List Shard → Progress → Option Progress
load_shards t m need [] p = some p
load_shards t m need (s ∷ ss) p = do q ← load_shard t m need s p; load_shards t m need ss q

keep_manifest : IndexManifest → Progress → IndexManager × Result (ℕ × ℕ)
keep_manifest m p = (
  record p.manager { index_manifests = store m.meta.name m p.manager.index_manifests },
  ok (p.total, p.success),
)

load_checked :
    Tools
    → IndexManifest
    → (Bytes → Bool)
    → IndexManager
    → Option (List Shard)
    → Option (IndexManager × Result (ℕ × ℕ))
unfolding keep_manifest
load_checked t m need i none = none
load_checked t m need i (some ss) =
    (load_shards t m need ss (record { manager = i; total = 0; success = 0 }) >>= λ p.
    some (keep_manifest m p))

-- `validate` accepts every manifest, so its error path is not taken.
load_with :
    Tools
    → IndexManifest
    → IndexManager
    → Option (Bytes → Bool)
    → Option (IndexManager × Result (ℕ × ℕ))
unfolding load_checked
load_with t m i none = some (i, err cluster_not_initialised)
load_with t m i (some need) = load_checked t m need i (generate_shards m)

-- In single mode every shard is loaded.
abbrev pub needs_in : Mode → Option (Bytes → Bool) → Option (Bytes → Bool)
needs_in single owns = some (λ _. true)
needs_in cluster owns = owns

-- `loadIndex`: the manager, and the numbers of shards tried and loaded; `none` is a panic. `owns` is
-- NeedLoad of the cluster manager, `none` if there is none.
unfoldable pub load_index :
    Tools
    → Option (Bytes → Bool)
    → IndexManifest
    → IndexManager
    → Option (IndexManager × Result (ℕ × ℕ))
unfolding load_with
load_index t owns m i = load_with t m i (needs_in i.mode owns)

unfoldable pub delete_loaded : Bytes → IndexManager → Option Index → Option IndexManager
delete_loaded key i none = some i
delete_loaded key i (some x) = do
  n ← Index.delete x i.native
  some (record i { engine_store = delete key i.engine_store; native = n })

unfoldable pub delete_shards : List Shard → IndexManager → Option IndexManager
unfolding delete_loaded
delete_shards [] i = some i
delete_shards (s ∷ ss) i = do
  j ← delete_loaded (unique_shard_key s) i (load (unique_shard_key s) i.engine_store)
  delete_shards ss j

delete_manifest : Bytes → IndexManager → Option IndexManifest → Option IndexManager
delete_manifest name i none = some i
delete_manifest name i (some m) = do
  ss ← generate_unique_shards m
  delete_shards ss (record i { index_manifests = delete name i.index_manifests })

-- `deleteIndex`; `none` is a panic.
unfoldable pub delete_index : Bytes → IndexManager → Option IndexManager
unfolding delete_manifest
delete_index name i = delete_manifest name i (load name i.index_manifests)
