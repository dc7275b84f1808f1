-- ===== src/Manager/Search/Resolving.antt =====
-- Where the routes of `ResolveUniqueShard` come from.
use vectory.Base.{
  ◌≡◌, refl, List, [], ◌∷◌, Option, none, some, Bytes, bytes_key, load, leb_ℤ, In, inl, inr, ◌>>=◌,
  Bool-cases,
}
use vectory.Errors.{Err, resolve_index_shard, ok, err}
use vectory.Shard.{Shard, IndexManifest, generate_replica_keys}
use vectory.Cluster.{Routing}
use vectory.Manager.{IndexManager}
use vectory.Manager.Search.{route_replicas, resolve_in, resolve_unique_shard}

pub route_replicas-In :
    (route : Bytes → Option Routing × Option Err) (ks : List Bytes) (o : Option Routing)
    → In o (route_replicas route ks)
    → (key : Bytes) × In key ks × (route key ≡ (o, none))
unfolding route_replicas
route_replicas-In route [] o w = elim w [ ]
route_replicas-In route (k ∷ ks) o w = go (route k).1 refl (route_replicas-In route ks o) w
  where
    go :
        (x : Option Err)
        → (route k).1 ≡ x
        → (In o (route_replicas route ks) → (key : Bytes) × In key ks × (route key ≡ (o, none)))
        → In o (elim x [
          | none ↦ (route k).0 ∷ route_replicas route ks
          | some e ↦ route_replicas route ks
        ])
        → (key : Bytes) × In key (k ∷ ks) × (route key ≡ (o, none))
    go (some e) q hyp v = let (key, a, b) = hyp v in (key, inr a, b)
    go none q hyp (inl same) = (k, inl refl, λ n. (same n, q n))
    go none q hyp (inr v) = let (key, a, b) = hyp v in (key, inr a, b)

-- The routes are those of the replica keys of the shard, for the number of replicas in the manifest.
pub resolve_unique_shard-some :
    (route : Bytes → Option Routing × Option Err) (i : IndexManager) (s : Shard)
    (rs : List (Option Routing))
    → resolve_unique_shard route i s ≡ some (ok rs)
    → (m : IndexManifest) × (ks : List Bytes) × (load s.index_name i.index_manifests ≡ some m)
      × (generate_replica_keys s m.meta.replicas ≡ some ks)
      × (rs ≡ route_replicas route ks)
unfolding resolve_unique_shard resolve_in
resolve_unique_shard-some route i s rs q = go (load s.index_name i.index_manifests) refl q
  where
    keyed :
        (m : IndexManifest) (o : Option (List Bytes))
        → generate_replica_keys s m.meta.replicas ≡ o
        → (o >>= λ ks. some (ok (route_replicas route ks))) ≡ some (ok rs)
        → (ks : List Bytes) × (generate_replica_keys s m.meta.replicas ≡ some ks)
          × (rs ≡ route_replicas route ks)
    keyed m none e p = absurd (cc)
    keyed m (some ks) e p = (ks, e, cc)

    go :
        (o : Option IndexManifest)
        → load s.index_name i.index_manifests ≡ o
        → resolve_in route s o ≡ some (ok rs)
        → (m : IndexManifest) × (ks : List Bytes) × (load s.index_name i.index_manifests ≡ some m)
          × (generate_replica_keys s m.meta.replicas ≡ some ks)
          × (rs ≡ route_replicas route ks)
    go none e p = absurd (cc)
    go (some m) e p = elim (Bool-cases (leb_ℤ m.meta.shards s.shard_id)) [
      | inl t ↦
          let z : some (err resolve_index_shard) ≡ some (ok rs) = rw (t, resolve_in) at p in
          absurd (cc)
      | inr t ↦
          let (ks, a, b) =
            keyed m (generate_replica_keys s m.meta.replicas) refl (rw (t, resolve_in) at p) in
          (m, ks, e, a, b)
    ]
