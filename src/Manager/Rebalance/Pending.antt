-- ===== src/Manager/Rebalance/Pending.antt =====
-- What a rebalance does to shards that were pending before it.
use vectory.Base.{
  ◌≡◌, inl, inr, refl, sym, ap, ◌∙◌, Bool, true, false, List, [], ◌∷◌, some, Bytes, bytes_key, Map,
  load, load-delete, arith, if◌then◌else◌, Bool-cases,
}
use vectory.Status.{NodeStatus}
use vectory.Shard.{
  Shard, IndexManifest, shard_key, shard_as_key, same_shard, same_shard_iff, generate_unique_shards,
}
use vectory.Manager.{IndexManager, Tools, no_entry, unmark_shard_pending}
use vectory.Manager.Rebalance.{
  rebalance_shard, rebalance_shards, rebalance_manifests, settle_status, rebalance, sweep_pending,
}
use vectory.Manager.Rebalance.Steps.{rebalance_shard-Leaves}
use vectory.Manager.Rebalance.Steps.{bind_some}
use vectory.Manager.Rebalance.Placement.{status-rebalance}

unmark_other :
    (s p : Shard) (i : IndexManager)
    → same_shard s p ≡ false
    → load p (unmark_shard_pending s i).pending_shards ≡ load p i.pending_shards
unfolding unmark_shard_pending
unmark_other s p i d = ground (arith, load-delete s p i.pending_shards)

sweep_keeps :
    (need : Bytes → Bool) (ps : Map Shard Bool) (p : Shard) (i : IndexManager)
    → need (shard_key p) ≡ true
    → load p i.pending_shards ≡ some true
    → load p (sweep_pending need ps i).pending_shards ≡ some true
unfolding sweep_pending
sweep_keeps need [] p i w h = h
sweep_keeps need ((s, b) ∷ ps) p i w h = elim (Bool-cases (need (shard_key s))) [
  | inl e ↦ rw (e, sweep_pending) (sweep_keeps need ps p i w h)
  | inr e ↦
      rw (e, sweep_pending)
        (sweep_keeps need ps p (unmark_shard_pending s i) w (unmark_other s p i (apart e) ∙ h))
]
  where
    apart : need (shard_key s) ≡ false → same_shard s p ≡ false
    apart e = elim (Bool-cases (same_shard s p)) [
      | inl q ↦
          let z = ap (λ (x : Shard). need (shard_key x)) ((same_shard_iff s p).0 q) in absurd (cc)
      | inr q ↦ q
    ]

module _ (t : Tools) (need : Bytes → Bool) (p : Shard) where
  shards_keep :
      (m : IndexManifest) (ss : List Shard) (i j : IndexManager)
      → rebalance_shards t need m ss i ≡ some j
      → load p i.pending_shards ≡ some true
      → load p j.pending_shards ≡ some true
  unfolding rebalance_shards
  shards_keep m [] i j q h =
      let same : i ≡ j = cc in ap (λ (x : IndexManager). load p x.pending_shards) (sym same) ∙ h
  shards_keep m (s ∷ ss) i j q h =
      let (k, first, rest) = bind_some (rebalance_shard t need m s i) _ j q in
      shards_keep m ss k j rest ((rebalance_shard-Leaves t need m s i k first).pending p h)

  manifests_keep :
      (ms : Map Bytes IndexManifest) (i j : IndexManager)
      → rebalance_manifests t need ms i ≡ some j
      → load p i.pending_shards ≡ some true
      → load p j.pending_shards ≡ some true
  unfolding rebalance_manifests
  manifests_keep [] i j q h =
      let same : i ≡ j = cc in ap (λ (x : IndexManager). load p x.pending_shards) (sym same) ∙ h
  manifests_keep ((name, m) ∷ ms) i j q h =
      let (ss, _, q') = bind_some (generate_unique_shards m) _ j q in
      let (k, first, rest) = bind_some (rebalance_shards t need m ss i) _ j q' in
      manifests_keep ms k j rest (shards_keep m ss i k first h)

  status_unhealthy :
      (ps : Map Shard Bool)
      → load p ps ≡ some true
      → (if no_entry ps then NodeStatus.healthy else NodeStatus.unhealthy) ≡ NodeStatus.unhealthy
  unfolding load
  status_unhealthy [] h = absurd (cc)
  status_unhealthy (e ∷ ps) h = refl

  -- A shard that is pending, under a key that this node still owns, stays pending through every
  -- rebalance, and keeps the node unhealthy, also when its retry succeeds and it is loaded: nothing
  -- takes the mark off a shard that was loaded.
  pub rebalance_stays_pending :
      (i j : IndexManager)
      → load p i.pending_shards ≡ some true
      → need (shard_key p) ≡ true
      → rebalance t need i ≡ some j
      → (load p j.pending_shards ≡ some true) × (j.status.current ≡ NodeStatus.unhealthy)
  unfolding rebalance settle_status
  rebalance_stays_pending i j h w q =
      let (k, all, last) = bind_some (rebalance_manifests t need i.index_manifests _) _ j q in
      let same : settle_status k ≡ j = cc in
      let kept =
        ap (λ (x : IndexManager). load p x.pending_shards) (sym same)
        ∙ manifests_keep i.index_manifests _ k all (sweep_keeps need i.pending_shards p _ w h) in
      (kept, status-rebalance t need i j q ∙ status_unhealthy j.pending_shards kept)
