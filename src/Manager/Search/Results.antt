-- ===== src/Manager/Search/Results.antt =====
-- What a local search tells about each shard of an index.
use vectory.Base.{
  ◌≡◌, ◌⊎◌, inl, inr, refl, sym, subst, true, false, List, [], ◌∷◌, Option, none, some, Bytes,
  bytes_key, load, ℤ, length, ◌==◌, ==_iff, arith, Bool-cases, ◌≢◌,
}
use vectory.Errors.{
  Err, shard_not_found, index_not_found, output_dimension, is_shard_not_found, Result, ok, err,
}
use vectory.Shard.{Shard, IndexManifest, unique_shard_key, generate_unique_shards}
use vectory.Faiss.Searching
use vectory.Faiss.Searching.{IsOwnErrors}
use vectory.Faiss.{Library, Float32}
use vectory.Index
use vectory.Index.{Index, faiss, mock, mock_search}
use vectory.Manager.{IndexManager, Mode, single, cluster}
use vectory.Manager.Search.{
  SearchResult, pair_up, label_result, search_loaded, search_shard, route_missing, search_shards,
  search_manifest, search,
}

-- How a result tells of the shard it is about: it is searched here, with its labels; its index failed,
-- or gave as many distances as labels not, and the error says so; or it is to be searched elsewhere.
abbrev pub Tells : Library → IndexManager → List Float32 → ℤ → Shard → SearchResult → Type 0
Tells lib i x k s r =
    (r.shard ≡ s)
    × (((idx : Index) × (load (unique_shard_key s) i.engine_store ≡ some idx)
          × (r.to_route ≡ false)
          × (((ds : List Float32) × (ls : List Bytes) × (Index.search lib idx x k ≡ ok (ds, ls))
                × (length ds ≡ length ls)
                × (r.error ≡ none)
                × (r.result ≡ pair_up ds ls))
              ⊎ ((e : Err) × (Index.search lib idx x k ≡ err e)
                  × (r.error ≡ some e)
                  × (r.result ≡ []))
              ⊎ ((ds : List Float32) × (ls : List Bytes) × (Index.search lib idx x k ≡ ok (ds, ls))
                  × (length ds ≢ length ls)
                  × (r.error ≡ some output_dimension)
                  × (r.result ≡ []))))
        ⊎ ((load (unique_shard_key s) i.engine_store ≡ none)
            × (r.result ≡ [])
            × (((i.mode ≡ cluster) × (r.to_route ≡ true) × (r.error ≡ none))
                ⊎ ((i.mode ≡ single) × (r.to_route ≡ false) × (r.error ≡ some shard_not_found)))))

-- No index answers that the shard is not found.
search-error :
    (lib : Library) (idx : Index) (x : List Float32) (k : ℤ) (e : Err)
    → IsOwnErrors lib
    → Index.search lib idx x k ≡ err e
    → is_shard_not_found e ≡ false
unfolding Index.search mock_search
search-error lib (mock m) x k e own q = ground arith
search-error lib (faiss f) x k e own q = Searching.search-error lib f x k e own q

-- A failure of another kind is not routed.
failed : Shard → Err → SearchResult
failed s e = record { shard = s; error = some e; result = []; to_route = false }

unrouted :
    (m : Mode) (s : Shard) (e : Err)
    → is_shard_not_found e ≡ false
    → route_missing m s (failed s e, some e) ≡ failed s e
unfolding route_missing failed
unrouted single s e h = refl
unrouted cluster s e h = rw h

module _ (lib : Library) (i : IndexManager) (x : List Float32) (k : ℤ) (s : Shard) where
  answered :
      (m : Mode) (idx : Index) (r : Result (List Float32 × List Bytes))
      → load (unique_shard_key s) i.engine_store ≡ some idx
      → Index.search lib idx x k ≡ r
      → ((e : Err) → r ≡ err e → is_shard_not_found e ≡ false)
      → Tells lib i x k s (route_missing m s (label_result s r))
  unfolding route_missing label_result failed
  answered m idx (err e) l q own =
      subst (Tells lib i x k s) (sym (unrouted m s e (own e refl)))
        (refl, inl (idx, l, refl, inr (inl (e, q, refl, refl))))
  answered m idx (ok (ds, ls)) l q own = elim (Bool-cases (length ds == length ls)) [
    | inl e ↦
        let same = (==_iff (length ds) (length ls)).0 e in
        rw (e, label_result) (refl, inl (idx, l, refl, inl (ds, ls, q, same, refl, refl)))
    | inr e ↦
        let different : length ds ≢ length ls =
          λ z. let on = (==_iff (length ds) (length ls)).1 z in absurd (cc) in
        rw (e, label_result)
          (subst (Tells lib i x k s) (sym (unrouted m s output_dimension refl))
            (refl, inl (idx, l, refl, inr (inr (ds, ls, q, different, refl, refl)))))
  ]

  told :
      (m : Mode) (o : Option Index)
      → i.mode ≡ m
      → load (unique_shard_key s) i.engine_store ≡ o
      → IsOwnErrors lib
      → Tells lib i x k s (route_missing m s (search_loaded lib s x k o))
  unfolding search_loaded route_missing
  told cluster none e l own = (refl, inr (l, refl, inl (e, refl, refl)))
  told single none e l own = (refl, inr (l, refl, inr (e, refl, refl)))
  told m (some idx) e l own =
      answered m idx (Index.search lib idx x k) l refl (λ z q. search-error lib idx x k z own q)

-- One result for each shard, in order.
abbrev pub AllTells :
    Library → IndexManager → List Float32 → ℤ → List Shard → List SearchResult → Type 0
AllTells lib i x k [] [] = Unit
AllTells lib i x k (s ∷ ss) (r ∷ rs) = Tells lib i x k s r × AllTells lib i x k ss rs
AllTells lib i x k _ _ = ⊥

search_shards-AllTells :
    (lib : Library) (i : IndexManager) (x : List Float32) (k : ℤ) (ss : List Shard)
    → IsOwnErrors lib
    → AllTells lib i x k ss (search_shards lib i ss x k)
unfolding search_shards search_shard
search_shards-AllTells lib i x k [] own = tt
search_shards-AllTells lib i x k (s ∷ ss) own =
    (told lib i x k s i.mode _ refl refl own, search_shards-AllTells lib i x k ss own)

-- A search of an index that is known gives one result for each of its shards, in order. A loaded
-- shard is searched here: its result holds the distances and labels that its index gives, or the error
-- that it gives, or the error of a wrong output where they are not equally many; a shard that is not
-- loaded is marked for routing in cluster mode and is an error in single mode. The library is taken not to
-- answer with the program's own error for a missing shard.
pub search-AllTells :
    (lib : Library) (i : IndexManager) (name : Bytes) (x : List Float32) (k : ℤ) (m : IndexManifest)
    (ss : List Shard)
    → IsOwnErrors lib
    → load name i.index_manifests ≡ some m
    → generate_unique_shards m ≡ some ss
    → (rs : List SearchResult) × (search lib i name x k ≡ some (ok rs)) × AllTells lib i x k ss rs
unfolding search search_manifest
search-AllTells lib i name x k m ss own l g =
    (search_shards lib i ss x k, simp (l, g), search_shards-AllTells lib i x k ss own)

-- With a shard at least there is a first result.
pub search-cons :
    (lib : Library) (i : IndexManager) (name : Bytes) (x : List Float32) (k : ℤ) (m : IndexManifest)
    (s : Shard) (ss : List Shard)
    → load name i.index_manifests ≡ some m
    → generate_unique_shards m ≡ some (s ∷ ss)
    → (r : SearchResult) × (rs : List SearchResult) × (search lib i name x k ≡ some (ok (r ∷ rs)))
unfolding search search_manifest search_shards
search-cons lib i name x k m s ss l g = (
  route_missing i.mode s (search_shard lib i s x k),
  search_shards lib i ss x k,
  simp (l, g) refl,
)

pub search-unknown :
    (lib : Library) (i : IndexManager) (name : Bytes) (x : List Float32) (k : ℤ)
    → load name i.index_manifests ≡ none
    → search lib i name x k ≡ some (err index_not_found)
unfolding search search_manifest
search-unknown lib i name x k l = simp l
