-- ===== src/Processor.antt =====
-- `Handle` of internal/processor/search.go and search_shard.go. Calls to other nodes, the order of
-- scores and the package container/heap are arguments; a getter of a nil message gives the zero value.
pub mod Answers
pub mod Gin
use vectory.Base.{
  ℕ, zero, suc, ◌+◌, ◌≡◌, ◌↔◌, refl, Bool, true, false, List, [], ◌∷◌, ◌++◌, map, Option, none,
  some, Bytes, is_empty, bytes_same, bytes_same_iff, ◌==◌, ==_iff, ◌&&◌, ◌||◌, Key, ℤ, pos, leb_ℤ,
  any, arith, ◌>>=◌, if◌then◌else◌,
}
use vectory.Errors.{Err, message, invalid_limit, empty_input, index_not_found, Result, ok, err}
use vectory.Shard.{Shard, zero_shard, from_string, is_negative}
use vectory.Faiss.{Library, Float32}
use vectory.Manager.{IndexManager}
use vectory.Manager.Search
use vectory.Manager.Search.{Label, SearchResult, search_shard}
use vectory.Merge.{Heap, merge_sorted_lists}

pub record Item : Type 0 where
  pub id : Bytes
  pub score : Float32
  pub doc : Bytes

-- The message SearchResult of the protocol.
pub record Found : Type 0 where
  pub result : List Item
  pub error : Bytes

pub record SearchShardRequest : Type 0 where
  pub shard_key : Bytes
  pub input : List Float32
  pub limit : ℤ

pub record SearchRequest : Type 0 where
  pub index_name : Bytes
  pub input : List (List Float32)
  pub limit : ℤ

abbrev pub to_item : Label → Item
to_item l = record { id = l.label; score = l.distance; doc = [] }

answer : SearchResult × Option Err → Found × Option Err
answer (r, some e) = (record { result = []; error = message e }, some e)
answer (r, none) = (record { result = map to_item r.result; error = [] }, none)

-- `SearchShardProcessor.Handle`: the result in the response, and the error; `none` is the panic of
-- `make` at a negative limit.
unfoldable pub handle_shard :
    Library → IndexManager → SearchShardRequest → Option (Found × Option Err)
unfolding answer
handle_shard lib i req =
    if is_negative req.limit
    then none
    else some
        (answer (search_shard lib i (from_string zero_shard req.shard_key) req.input req.limit))

-- GetShardClient, and SearchShard of the client: the result in the response, if there is one, and
-- the error.
abbrev pub Remote : Type 0
Remote = Shard → Result (SearchShardRequest → Option (Option Found) × Option Err)

abbrev pub get_result : Option Found → List Item
get_result none = []
get_result (some f) = f.result

abbrev pub get_error : Option Found → Bytes
get_error none = []
get_error (some f) = f.error

-- The request that is sent to another node.
unfoldable pub shard_request : List Float32 → ℤ → SearchShardRequest
shard_request x k = record { shard_key = []; input = x; limit = k }

no_items : Bytes → Found
no_items e = record { result = []; error = e }

replied : Option (Option Found) × Option Err → Option Found
unfolding no_items
replied (some f, e) = f
replied (none, some e) = some (no_items (message e))
replied (none, none) = some (no_items [])

called :
    List Float32
    → ℤ
    → Result (SearchShardRequest → Option (Option Found) × Option Err)
    → Option Found
unfolding replied
called x k (err e) = some (no_items (message e))
called x k (ok search) = replied (search (shard_request x k))

-- One shard of the loop over `shardResults`.
unfoldable pub shard_found : Remote → List Float32 → ℤ → SearchResult → Option Found
unfolding called
shard_found remote x k r =
    if r.to_route
    then called x k (remote r.shard)
    else some (record { result = map to_item r.result; error = [] })

-- Items are compared by their addresses: each has its own, and with it the contents.
abbrev pub Pointer : Type 0
Pointer = ℕ × Item

abbrev pub same_item : Item → Item → Bool
same_item a b = bytes_same a.id b.id && (a.score == b.score && bytes_same a.doc b.doc)

abbrev pub same_pointer : Pointer → Pointer → Bool
same_pointer a b = (a.0 == b.0) && same_item a.1 b.1

pub same_item_iff : (a b : Item) → (same_item a b ≡ true) ↔ (a ≡ b)
same_item_iff a b =
    ground (arith, bytes_same_iff a.id b.id, ==_iff a.score b.score, bytes_same_iff a.doc b.doc)

pub same_pointer_iff : (a b : Pointer) → (same_pointer a b ≡ true) ↔ (a ≡ b)
same_pointer_iff a b = ground (arith, same_item_iff a.1 b.1, ==_iff a.0 b.0)

instance abbrev pub pointer_key : Key Pointer
pointer_key = record { same = same_pointer; same_iff = same_pointer_iff }

-- Fresh addresses, from the given one on.
allocate : ℕ → List Item → List Pointer
allocate n [] = []
allocate n (x ∷ xs) = (n, x) ∷ allocate (suc n) xs

unfoldable pub allocate_all : ℕ → List (List Item) → List (List Pointer)
unfolding allocate
allocate_all n [] = []
allocate_all n (l ∷ ls) = allocate n l ∷ allocate_all (n + count_items l) ls
  where
    count_items : List Item → ℕ
    count_items [] = 0
    count_items (x ∷ xs) = suc (count_items xs)

abbrev pub by_score : (Float32 → Float32 → Bool) → Pointer → Pointer → Bool
by_score less a b = less a.1.score b.1.score

merged_error : Bytes → List (Option Found) → Bytes
merged_error acc [] = acc
merged_error acc (f ∷ fs) = merged_error (acc ++ (b'|' ∷ get_error f)) fs

failed : Option Found → Bool
failed f = if is_empty (get_error f) then false else true

module _ (less : Float32 → Float32 → Bool) (heap : Heap Pointer (by_score less)) where
  -- The results of several shards in one.
  unfoldable pub merge_shards : ℤ → List (Option Found) → Found
  unfolding merged_error failed
  merge_shards k fs = record {
    result = map (λ p. p.1) (merge_sorted_lists heap (allocate_all 0 (map get_result fs)) k).0;
    error = if any failed fs then merged_error [] fs else [];
  }

  combine : ℤ → List (Option Found) → Option Found
  unfolding merge_shards
  combine k (f ∷ []) = f
  combine k fs = some (merge_shards k fs)

  -- What the search of the index gives for one input: `none` for the return of an error.
  unfoldable pub input_found :
      Remote → List Float32 → ℤ → Result (List SearchResult) → Option (Option Found)
  unfolding combine no_items
  input_found remote x k (err e) = some (some (no_items (message e)))
  input_found remote x k (ok []) = none
  input_found remote x k (ok (r ∷ rs)) = some (combine k (map (shard_found remote x k) (r ∷ rs)))

  then_rest :
      Option (Option Found)
      → Option (Result (List (Option Found)))
      → Option (Result (List (Option Found)))
  then_rest none rest = some (err index_not_found)
  then_rest (some f) none = none
  then_rest (some f) (some (err e)) = some (err e)
  then_rest (some f) (some (ok fs)) = some (ok (f ∷ fs))

  -- The loop over the inputs.
  unfoldable pub search_inputs :
      Library
      → Remote
      → IndexManager
      → Bytes
      → ℤ
      → List (List Float32)
      → Option (Result (List (Option Found)))
  unfolding then_rest input_found
  search_inputs lib remote i name k [] = some (ok [])
  search_inputs lib remote i name k (x ∷ xs) =
      let rest = search_inputs lib remote i name k xs in
      (Search.search lib i name x k >>= λ r. then_rest (input_found remote x k r) rest)

  handle_inputs :
      Library
      → Remote
      → IndexManager
      → Bytes
      → ℤ
      → List (List Float32)
      → Option (Result (List (Option Found)))
  unfolding search_inputs
  handle_inputs lib remote i name k [] = some (err empty_input)
  handle_inputs lib remote i name k (x ∷ xs) = search_inputs lib remote i name k (x ∷ xs)

  -- `SearchProcessor.Handle`: the results, by input; `none` is a panic.
  unfoldable pub handle :
      Library → Remote → IndexManager → SearchRequest → Option (Result (List (Option Found)))
  unfolding handle_inputs
  handle lib remote i req =
      if leb_ℤ req.limit (pos 0)
      then some (err invalid_limit)
      else handle_inputs lib remote i req.index_name req.limit req.input
