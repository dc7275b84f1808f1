-- ===== src/Manager/Rebalance.antt =====
-- `Rebalance` of internal/engine/manager.go. It runs over the pending shards and the manifests that
-- were there at its start; `need` is NeedLoad of the cluster manager. Calling the listeners at the
-- end changes nothing here.
pub mod Steps
pub mod Placement
pub mod Pending
pub mod Total
use vectory.Base.{
  ℕ, ◌≡◌, refl, Bool, true, false, List, [], ◌∷◌, Option, none, some, Bytes, bytes_key, Map, load,
  store, delete, ℤ, ◌>>=◌, if◌then◌else◌,
}
use vectory.Errors.{Result, ok, err}
use vectory.Status.{NodeStatus, set_status}
use vectory.Shard.{Shard, IndexManifest, shard_key, unique_shard_key, below, generate_unique_shards}
use vectory.Faiss.{Native}
use vectory.Index.{Index, new_index}
use vectory.Manager.{
  IndexManager, Tools, mark_shard_pending, unmark_shard_pending, with_index, prepared,
  delete_loaded, no_entry,
}

-- Pending shards that went to other nodes are dropped.
unfoldable pub sweep_pending : (Bytes → Bool) → Map Shard Bool → IndexManager → IndexManager
sweep_pending need [] i = i
sweep_pending need ((s, b) ∷ ps) i =
    sweep_pending need ps (if need (shard_key s) then i else unmark_shard_pending s i)

-- The first replica of the shard that this node needs.
unfoldable pub assigned_replica : (Bytes → Bool) → Shard → List ℤ → Option Shard
assigned_replica need s [] = none
assigned_replica need s (r ∷ rs) =
    let candidate = record s { replica_id = r } in
    let rest = assigned_replica need s rs in
    if need (shard_key candidate) then some candidate else rest

put_rebalanced : IndexManifest → Shard → IndexManager → Native × Result Index → IndexManager
put_rebalanced m s i (n, err e) = mark_shard_pending s (record i { native = n })
put_rebalanced m s i (n, ok x) = with_index i (unique_shard_key s) (prepared i.mode x m.meta.name) n

place :
    Tools → IndexManifest → Shard → IndexManager → Option Shard → Option Index → Option IndexManager
unfolding put_rebalanced
place t m s i none loaded = delete_loaded (unique_shard_key s) i loaded
place t m s i (some c) (some x) = some i
place t m s i (some c) none =
    (new_index t.loader t.scheduler m c i.native >>= λ r. some (put_rebalanced m s i r))

pub rebalance_shard :
    Tools → (Bytes → Bool) → IndexManifest → Shard → IndexManager → Option IndexManager
unfolding place
rebalance_shard t need m s i =
    place t m s i (assigned_replica need s (below m.meta.replicas))
      (load (unique_shard_key s) i.engine_store)

rebalance_shards :
    Tools → (Bytes → Bool) → IndexManifest → List Shard → IndexManager → Option IndexManager
unfolding rebalance_shard
rebalance_shards t need m [] i = some i
rebalance_shards t need m (s ∷ ss) i = do
  j ← rebalance_shard t need m s i
  rebalance_shards t need m ss j

rebalance_manifests :
    Tools → (Bytes → Bool) → Map Bytes IndexManifest → IndexManager → Option IndexManager
unfolding rebalance_shards
rebalance_manifests t need [] i = some i
rebalance_manifests t need ((name, m) ∷ ms) i = do
  ss ← generate_unique_shards m
  j ← rebalance_shards t need m ss i
  rebalance_manifests t need ms j

-- The deferred function: no error is ever set, so the pending shards decide.
settle_status : IndexManager → IndexManager
settle_status i = record i {
  status =
      set_status (if no_entry i.pending_shards then NodeStatus.healthy else NodeStatus.unhealthy)
        i.status;
}

-- `Rebalance`; `none` is a panic.
unfoldable pub rebalance : Tools → (Bytes → Bool) → IndexManager → Option IndexManager
unfolding rebalance_manifests settle_status
rebalance t need i = do
  let begun = record i { status = set_status NodeStatus.rebalancing i.status }
  let swept = sweep_pending need i.pending_shards begun
  j ← rebalance_manifests t need i.index_manifests swept
  some (settle_status j)
