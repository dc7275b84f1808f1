-- ===== src/Tests/Managers.antt =====
-- A node that is given all the shards of the index of Data, before and after a rebalance.
use vectory.Base.{
  ◌≡◌, refl, true, Bool, List, [], ◌∷◌, some, Bytes, codes, load, store, bytes_key, pos, itoa, ◌*ℤ◌,
}
use vectory.Errors.{ok}
use vectory.Status.{NodeStatus, set_status}
use vectory.Shard.{
  Shard, shard_key, unique_shard_key, shard_as_key, generate_unique_shards, capacity, count_up,
}
use vectory.Index.{Index, mock, new_index, new_mock_index, set_cluster_reload_callback}
use vectory.Faiss.{Native}
use vectory.Faiss.Searching.{IsOwnErrors}
use vectory.Manager.{IndexManager, Tools, cluster}
use vectory.Manager.Search.{SearchResult, search}
use vectory.Manager.Search.Results.{AllTells, search-AllTells}
use vectory.Manager.Rebalance.{rebalance, sweep_pending, assigned_replica}
use vectory.Tests.Data.{books, first_shard, second_shard, next_loader, finds_four}

abbrev pub tools : Tools
tools = record { loader = next_loader; scheduler = λ c. ok 1 }

abbrev pub mine : Bytes → Bool
mine k = true

abbrev pub nothing_open : Native
nothing_open = record { opened = []; freed = [] }

-- It has nothing loaded yet.
abbrev pub before : IndexManager
before = record {
  engine_store = [];
  index_manifests = (codes "b", books) ∷ [];
  pending_shards = [];
  mode = cluster;
  status = record { current = NodeStatus.healthy; sent = [] };
  native = nothing_open;
}

abbrev pub mock_of : Shard → Index
mock_of s = mock (record { shard = s; revision = pos 123; manifest = books })

abbrev pub balanced : IndexManager
balanced = record before {
  engine_store = (codes "b:0", mock_of first_shard) ∷ (codes "b:1", mock_of second_shard) ∷ [];
  status = record {
    current = NodeStatus.healthy;
    sent = NodeStatus.healthy ∷ NodeStatus.rebalancing ∷ [];
  };
}

balances : rebalance tools mine before ≡ some balanced
unfolding rebalance sweep_pending assigned_replica generate_unique_shards capacity ◌*ℤ◌ count_up
    new_index new_mock_index set_cluster_reload_callback set_status load store unique_shard_key
    shard_key itoa
balances = refl

pub two_shards : generate_unique_shards books ≡ some (first_shard ∷ second_shard ∷ [])
unfolding generate_unique_shards capacity ◌*ℤ◌ count_up
two_shards = refl

finds_four-IsOwnErrors : IsOwnErrors finds_four
finds_four-IsOwnErrors h x k e q = absurd (cc)

pub known : load (codes "b") balanced.index_manifests ≡ some books
unfolding load
known = refl

search-AllTells_example :
    (rs : List SearchResult) × (search finds_four balanced (codes "b") (1 ∷ 2 ∷ []) (pos 3)
      ≡ some (ok rs))
    × AllTells finds_four balanced (1 ∷ 2 ∷ []) (pos 3) (first_shard ∷ second_shard ∷ []) rs
search-AllTells_example =
    search-AllTells finds_four balanced (codes "b") (1 ∷ 2 ∷ []) (pos 3) books
      (first_shard ∷ second_shard ∷ []) finds_four-IsOwnErrors known two_shards
