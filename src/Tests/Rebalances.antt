-- ===== src/Tests/Rebalances.antt =====
-- A node that is given one replica of one of two indexes with different numbers of replicas, and has
-- loaded another shard before.
use vectory.Base.{
  ◌≡◌, ◌⊎◌, refl, sym, inl, inr, true, false, Bool, [], ◌∷◌, none, some, Bytes, codes, bytes_same,
  load, store, delete, bytes_key, pos, itoa, ◌*ℤ◌, Map, arith, ◌∙◌, ap,
}
use vectory.Status.{NodeStatus, set_status}
use vectory.Shard.{
  IndexManifest, shard_key, unique_shard_key, shard_as_key, generate_unique_shards, capacity,
  count_up,
}
use vectory.Index
use vectory.Index.{Index, mock, new_index, new_mock_index, set_cluster_reload_callback}
use vectory.Manager.{IndexManager, delete_loaded}
use vectory.Manager.Rebalance.{rebalance, sweep_pending, assigned_replica}
use vectory.Manager.Rebalance.Placement.{
  IsNamed, AreInt32, needs_some, rebalance-Placed, rebalance-healthy,
}
use vectory.Manager.Rebalance.Steps.{Placed}
use vectory.Tests.Data.{books, books_meta, first_shard, second_shard}
use vectory.Tests.Managers.{tools, before, mock_of, two_shards}

abbrev other_books : IndexManifest
other_books = record books { meta = record books_meta { name = codes "bb"; replicas = pos 1 } }

-- The ring gives it the second replica of the second shard of the first index.
abbrev given : Bytes → Bool
given k = bytes_same k (codes "b:1:1")

abbrev two_indexes : Map Bytes IndexManifest
two_indexes = (codes "b", books) ∷ (codes "bb", other_books) ∷ []

abbrev misplaced : IndexManager
misplaced = record before {
  engine_store = (codes "b:0", mock_of first_shard) ∷ [];
  index_manifests = two_indexes;
}

abbrev settled : IndexManager
settled = record misplaced {
  engine_store = (codes "b:1", mock_of (record second_shard { replica_id = pos 1 })) ∷ [];
  status = record {
    current = NodeStatus.healthy;
    sent = NodeStatus.healthy ∷ NodeStatus.rebalancing ∷ [];
  };
}

settles : rebalance tools given misplaced ≡ some settled
unfolding rebalance sweep_pending assigned_replica generate_unique_shards capacity ◌*ℤ◌ count_up
    new_index new_mock_index set_cluster_reload_callback set_status load store delete
    unique_shard_key shard_key itoa delete_loaded Index.delete
settles = refl

two_indexes-IsNamed : IsNamed two_indexes
two_indexes-IsNamed d e (inl v) (inl w) q = sym v ∙ w
two_indexes-IsNamed d e (inl v) (inr (inl w)) q =
    let names : codes "b" ≡ codes "bb" =
      ap (λ (x : Bytes × IndexManifest). x.1.meta.name) v
      ∙ q
      ∙ ap (λ (x : Bytes × IndexManifest). x.1.meta.name) (sym w) in
    absurd (cc)
two_indexes-IsNamed d e (inr (inl v)) (inl w) q =
    let names : codes "bb" ≡ codes "b" =
      ap (λ (x : Bytes × IndexManifest). x.1.meta.name) v
      ∙ q
      ∙ ap (λ (x : Bytes × IndexManifest). x.1.meta.name) (sym w) in
    absurd (cc)
two_indexes-IsNamed d e (inr (inl v)) (inr (inl w)) q = sym v ∙ w
two_indexes-IsNamed d e (inr (inr v)) w q = elim v [ ]
two_indexes-IsNamed d e (inl v) (inr (inr w)) q = elim w [ ]
two_indexes-IsNamed d e (inr (inl v)) (inr (inr w)) q = elim w [ ]

two_indexes-AreInt32 : AreInt32 two_indexes
two_indexes-AreInt32 = (omega arith, (omega arith, tt))

rebalance-Placed_example :
    Placed (needs_some given first_shard (pos 2)) (unique_shard_key first_shard) settled
rebalance-Placed_example =
    rebalance-Placed tools given misplaced settled (codes "b", books)
      (first_shard ∷ second_shard ∷ []) first_shard two_indexes-IsNamed two_indexes-AreInt32 settles
      (inl refl) two_shards (inl refl)

rebalance-healthy_example :
    ((needs_some given second_shard (pos 2) ≡ true)
      × ((x : Index) × (load (unique_shard_key second_shard) settled.engine_store ≡ some x)))
    ⊎ ((needs_some given second_shard (pos 2) ≡ false)
        × (load (unique_shard_key second_shard) settled.engine_store ≡ none))
rebalance-healthy_example =
    rebalance-healthy tools given misplaced settled (codes "b", books)
      (first_shard ∷ second_shard ∷ []) second_shard two_indexes-IsNamed two_indexes-AreInt32
      settles refl (inl refl) two_shards (inr (inl refl))
