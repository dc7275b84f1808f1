-- ===== src/Tests/Lives.antt =====
-- What happens to a manager after its start: events, rebalances, deletions.
use vectory.Base.{
  ◌≡◌, refl, inl, inr, false, [], ◌∷◌, none, some, codes, load, delete, bytes_key, bytes_same, All,
  itoa, ◌*ℤ◌,
}
use vectory.Errors.{ok}
use vectory.Status.{initial}
use vectory.Shard.{unique_shard_key, generate_unique_shards, capacity, count_up}
use vectory.Index
use vectory.Cluster.Watch.{EventKind}
use vectory.Manager.{IndexManager, single, delete_index, delete_shards}
use vectory.Manager.Start.{handle_manifest}
use vectory.Manager.Start.Events.{delete_index-removes, handle_manifest-keeps_deleted}
use vectory.Manager.Life.{Reaches, begins, then_steps, loads}
use vectory.Tests.Data.{books, first_shard, second_shard}
use vectory.Tests.Managers.{tools, mock_of, mine, balanced, two_shards, known, nothing_open}
use vectory.Tests.Starts.{loaded, loads_two}
use vectory.Index.{Index}

abbrev emptied : IndexManager
emptied = record balanced { engine_store = []; index_manifests = [] }

deletes : delete_index (codes "b") balanced ≡ some emptied
unfolding delete_index delete_shards generate_unique_shards capacity ◌*ℤ◌ count_up load delete
    unique_shard_key itoa Index.delete
deletes = refl

elsewhere :
    All
      (λ s. bytes_same (unique_shard_key s) (codes "c:0") ≡ false)
      (first_shard ∷ second_shard ∷ [])
unfolding unique_shard_key itoa
elsewhere = (refl, (refl, tt))

delete_index-removes_example :
    (load (unique_shard_key second_shard) emptied.engine_store ≡ none)
    × (load (codes "b") emptied.index_manifests ≡ none)
    × (load (codes "c:0") emptied.engine_store ≡ load (codes "c:0") balanced.engine_store)
delete_index-removes_example =
    delete_index-removes (codes "b") (codes "c:0") balanced emptied books
      (first_shard ∷ second_shard ∷ []) second_shard known two_shards deletes (inr (inl refl))
      elsewhere

nameless : load [] balanced.index_manifests ≡ none
unfolding load
nameless = refl

handle_manifest-keeps_deleted_example :
    handle_manifest tools (some mine) (λ raw d. (d, none)) EventKind.deleted [] balanced
    ≡ some balanced
handle_manifest-keeps_deleted_example =
    handle_manifest-keeps_deleted tools (some mine) (λ raw d. (d, none)) balanced refl nameless

abbrev loaded_once : Reaches tools (loaded single initial)
loaded_once =
    then_steps (begins single initial nothing_open) (loads none books (ok (2, 2)) loads_two)

second_there : load (codes "b:1") (loaded single initial).engine_store ≡ some (mock_of second_shard)
unfolding load
second_there = refl
