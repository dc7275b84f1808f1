-- ===== src/Processor/Answers.antt =====
-- What `Handle` answers to a search, and what a node answers to the requests of other nodes.
use vectory.Base.{
  ℕ, suc, ◌≤◌, ◌≡◌, ◌≢◌, refl, ap, ◌∙◌, Bool, false, List, [], ◌∷◌, map, Option, none, some, Bytes,
  codes, load, bytes_key, ℤ, pos, pos_part, ◌<ℤ◌, ◌≤ℤ◌, leb_ℤ, leb, length, length-map, arith,
  split, itoa, if◌then◌else◌,
}
use vectory.Errors.{message, shard_not_found, index_not_found, ok}
use vectory.Shard.{Shard, IndexManifest, unique_shard_key, generate_unique_shards, from_string}
use vectory.Faiss.{Library, Float32}
use vectory.Manager.{IndexManager}
use vectory.Manager.Search.{search_shard}
use vectory.Manager.Search.Results.{search-cons, search-unknown}
use vectory.Merge.{Heap, merge_sorted_lists}
use vectory.Merge.Items.{length-merge_sorted_lists, size}
use vectory.Processor.{
  Pointer, by_score, pointer_key, Found, Remote, SearchRequest, shard_request, handle_shard,
  allocate_all, get_result, merge_shards, input_found, search_inputs, then_rest, handle,
  handle_inputs, no_items, shard_found, combine,
}

-- The request that is sent for a shard that is not here names no shard: the node that receives it
-- answers that the shard is not found, unless it has loaded a shard with an empty index name.
pub handle_shard-shard_request :
    (lib : Library) (j : IndexManager) (x : List Float32) (k : ℤ)
    → pos 0 ≤ℤ k
    → load (codes ":0") j.engine_store ≡ none
    → handle_shard lib j (shard_request x k)
      ≡ some (record { result = []; error = message shard_not_found }, some shard_not_found)
unfolding handle_shard shard_request from_string split search_shard unique_shard_key itoa
handle_shard-shard_request lib j x (pos k) p l = simp l
handle_shard-shard_request lib j x (ℤ.negsuc k) p l = absurd (omega (arith, p))

module _ (less : Float32 → Float32 → Bool) (heap : Heap Pointer (by_score less)) where
  -- The merged result of several shards has no more items than the limit.
  pub length-merge_shards :
      (k : ℤ) (fs : List (Option Found))
      → pos 0 ≤ℤ k
      → length (merge_shards less heap k fs).result ≤ pos_part k
  unfolding merge_shards
  length-merge_shards k fs p =
      let lists = allocate_all 0 (map get_result fs) in
      omega (
        arith,
        length-map (λ (p : Pointer). p.1) (merge_sorted_lists heap lists k).0,
        bounded (pos_part k) (size lists) _ (length-merge_sorted_lists heap lists k),
      )
    where
      bounded : (a b c : ℕ) → c ≡ (if leb a b then a else b) → c ≤ a
      bounded a b c q = ground arith

  module _ (lib : Library) (remote : Remote) (i : IndexManager) (name : Bytes) (k : ℤ) where
    inputs_known :
        (m : IndexManifest) (s : Shard) (ss : List Shard) (xs : List (List Float32))
        → load name i.index_manifests ≡ some m
        → generate_unique_shards m ≡ some (s ∷ ss)
        → (fs : List (Option Found)) × (search_inputs less heap lib remote i name k xs
            ≡ some (ok fs))
          × (length fs ≡ length xs)
    unfolding search_inputs then_rest input_found no_items
    inputs_known m s ss [] l g = ([], refl, refl)
    inputs_known m s ss (x ∷ xs) l g =
        let (r, rs, q) = search-cons lib i name x k m s ss l g in
        let (fs, t, n) = inputs_known m s ss xs l g in
        (
          combine less heap k (map (shard_found remote x k) (r ∷ rs)) ∷ fs,
          simp (q, t) refl,
          ap suc n,
        )

    inputs_unknown :
        (xs : List (List Float32))
        → load name i.index_manifests ≡ none
        → search_inputs less heap lib remote i name k xs
          ≡ some (ok (map (λ x. some (record { result = []; error = message index_not_found })) xs))
    unfolding search_inputs then_rest input_found no_items
    inputs_unknown [] l = refl
    inputs_unknown (x ∷ xs) l = simp (search-unknown lib i name x k l, inputs_unknown xs l) refl

  positive : (k : ℤ) → pos 0 <ℤ k → leb_ℤ k (pos 0) ≡ false
  positive (pos k) p = ground arith
  positive (ℤ.negsuc k) p = absurd (omega (arith, p))

  handled_inputs :
      (lib : Library) (remote : Remote) (i : IndexManager) (name : Bytes) (k : ℤ)
      (xs : List (List Float32))
      → xs ≢ []
      → handle_inputs less heap lib remote i name k xs
        ≡ search_inputs less heap lib remote i name k xs
  unfolding handle_inputs
  handled_inputs lib remote i name k [] n = absurd (n refl)
  handled_inputs lib remote i name k (x ∷ xs) n = refl

  handled :
      (lib : Library) (remote : Remote) (i : IndexManager) (req : SearchRequest)
      → pos 0 <ℤ req.limit
      → req.input ≢ []
      → handle less heap lib remote i req
        ≡ search_inputs less heap lib remote i req.index_name req.limit req.input
  unfolding handle
  handled lib remote i req p n =
      rw (positive req.limit p) (handled_inputs lib remote i req.index_name req.limit req.input n)

  -- A search of an index that is known and has a shard, with a limit above zero and an input at
  -- least, is answered, with one result for each input.
  pub handle-Answers :
      (lib : Library) (remote : Remote) (i : IndexManager) (req : SearchRequest) (m : IndexManifest)
      (s : Shard) (ss : List Shard)
      → load req.index_name i.index_manifests ≡ some m
      → generate_unique_shards m ≡ some (s ∷ ss)
      → pos 0 <ℤ req.limit
      → req.input ≢ []
      → (fs : List (Option Found)) × (handle less heap lib remote i req ≡ some (ok fs))
        × (length fs ≡ length req.input)
  unfolding handle
  handle-Answers lib remote i req m s ss l g p n =
      let (fs, q, len) = inputs_known lib remote i req.index_name req.limit m s ss req.input l g in
      (fs, handled lib remote i req p n ∙ q, len)

  -- A search of an index that is not known, with a limit above zero and an input at least, is
  -- answered without an error: each result holds the message that the index is not found.
  pub handle-unknown :
      (lib : Library) (remote : Remote) (i : IndexManager) (req : SearchRequest)
      → load req.index_name i.index_manifests ≡ none
      → pos 0 <ℤ req.limit
      → req.input ≢ []
      → handle less heap lib remote i req
        ≡ some (
            ok
              (map (λ x. some (record { result = []; error = message index_not_found })) req.input))
  unfolding handle
  handle-unknown lib remote i req l p n =
      handled lib remote i req p n
      ∙ inputs_unknown lib remote i req.index_name req.limit req.input l
