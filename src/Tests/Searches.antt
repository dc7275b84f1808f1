-- ===== src/Tests/Searches.antt =====
-- Searches of the index of Data on a node that has loaded both of its shards.
use vectory.Base.{
  ℕ, ◌≡◌, refl, List, [], ◌∷◌, Option, none, some, Bytes, codes, load, bytes_key, pos, length, ltb,
  arith,
}
use vectory.Errors.{message, shard_not_found, ok, err, plain}
use vectory.Merge.{Heap, merge_sorted_lists}
use vectory.Processor.{
  Found, Remote, Pointer, by_score, pointer_key, SearchRequest, handle_shard, shard_request,
  merge_shards, handle, allocate_all,
}
use vectory.Processor.Answers.{handle_shard-shard_request, handle-Answers}
use vectory.Tests.Data.{finds_four, first_shard, second_shard, books}
use vectory.Tests.Managers.{balanced, two_shards, known}
use vectory.Tests.Heaps.{heap_by}

abbrev heap : Heap Pointer (by_score ltb)
heap = heap_by (λ p. p.1.score)

-- No other node answers.
abbrev alone : Remote
alone s = err (plain (codes "no node"))

abbrev one_item : Bytes → ℕ → Option Found
one_item id score =
    some (record { result = record { id = id; score = score; doc = [] } ∷ []; error = [] })

-- The best of two shards' items, at a limit of one.
best :
    merge_shards ltb heap (pos 1) (one_item (codes "x") 5 ∷ one_item (codes "y") 3 ∷ [])
    ≡ record { result = record { id = codes "y"; score = 3; doc = [] } ∷ []; error = [] }
unfolding merge_shards merge_sorted_lists allocate_all
best = refl

no_empty_name : load (codes ":0") balanced.engine_store ≡ none
unfolding load
no_empty_name = refl

handle_shard-shard_request_example :
    handle_shard finds_four balanced (shard_request (1 ∷ 2 ∷ []) (pos 3))
    ≡ some (record { result = []; error = message shard_not_found }, some shard_not_found)
handle_shard-shard_request_example =
    handle_shard-shard_request finds_four balanced (1 ∷ 2 ∷ []) (pos 3) (omega arith) no_empty_name

abbrev two_inputs : SearchRequest
two_inputs = record {
  index_name = codes "b";
  input = (1 ∷ 2 ∷ []) ∷ (3 ∷ 4 ∷ []) ∷ [];
  limit = pos 3;
}

handle-Answers_example :
    (fs : List (Option Found)) × (handle ltb heap finds_four alone balanced two_inputs
      ≡ some (ok fs))
    × (length fs ≡ 2)
handle-Answers_example =
    handle-Answers ltb heap finds_four alone balanced two_inputs books first_shard
      (second_shard ∷ []) known two_shards (omega arith) (λ e. absurd (cc))

abbrev other_index : SearchRequest
other_index = record two_inputs { index_name = codes "c" }

not_known : load (codes "c") balanced.index_manifests ≡ none
unfolding load
not_known = refl
