-- ===== src/Faiss/Searching.antt =====
-- What a search of one shard returns.
use vectory.Base.{
  ℕ, ◌≡◌, ◌≢◌, refl, sym, ap, ◌∙◌, true, false, List, [], ◌∷◌, map, Option, none, some, Bytes, ℤ,
  pos, ◌≤ℤ◌, leb_ℤ, itoa, length, arith,
}
use vectory.Errors.{Err, Result, ok, err, is_shard_not_found}
use vectory.Faiss.{FaissIndex, Library, Float32, search, search_handle, format_labels}

-- A search that succeeds was made on the serving handle, with a vector that is not empty and has at
-- least the index's dimension; the distances are the library's, and the labels its decimal ids.
abbrev pub IsAnswer : Library → Option ℕ → List Float32 → ℤ → List Float32 → List Bytes → Type 0
IsAnswer lib serving x k ds ls =
    (h : ℕ) × (ids : List ℤ) × (serving ≡ some h)
    × (lib.search h x k ≡ ok (ds, ids))
    × (ls ≡ map itoa ids)
    × (lib.dimension h ≤ℤ pos (length x))
    × (x ≢ [])

format_labels-ok :
    (r : Result (List Float32 × List ℤ)) (ds : List Float32) (ls : List Bytes)
    → format_labels r ≡ ok (ds, ls)
    → (ids : List ℤ) × (r ≡ ok (ds, ids)) × (ls ≡ map itoa ids)
unfolding format_labels
format_labels-ok (err e) ds ls q = absurd (cc)
format_labels-ok (ok (d, ids)) ds ls q = (ids, cc, cc)

search_handle-IsAnswer :
    (lib : Library) (serving : Option ℕ) (x : List Float32) (k : ℤ) (ds : List Float32)
    (ls : List Bytes)
    → search_handle lib x k serving ≡ ok (ds, ls)
    → IsAnswer lib serving x k ds ls
unfolding search_handle
search_handle-IsAnswer lib none x k ds ls q = absurd (cc)
search_handle-IsAnswer lib (some h) [] k ds ls q = absurd (cc)
search_handle-IsAnswer lib (some h) (y ∷ ys) k ds ls q =
    let r = lib.search h (y ∷ ys) k in
    let fits : leb_ℤ (lib.dimension h) (pos (length (y ∷ ys))) ≡ true = ground arith in
    let answered : format_labels r ≡ ok (ds, ls) = ground arith in
    let (ids, a, b) = format_labels-ok r ds ls answered in (h, ids, refl, a, b, ground arith, cc)

-- A search that succeeds was made on the serving handle, with an input that is not empty and is at
-- least as long as the index's dimension; its labels are the ids of the library's answer in decimals,
-- in order.
pub search-IsAnswer :
    (lib : Library) (f : FaissIndex) (x : List Float32) (k : ℤ) (ds : List Float32)
    (ls : List Bytes)
    → search lib f x k ≡ ok (ds, ls)
    → IsAnswer lib f.index x k ds ls
unfolding search
search-IsAnswer lib f x k ds ls q = search_handle-IsAnswer lib f.index x k ds ls q

-- The library's errors are its own.
abbrev pub IsOwnErrors : Library → Type 0
IsOwnErrors lib =
    (h : ℕ) (x : List Float32) (k : ℤ) (e : Err)
    → lib.search h x k ≡ err e
    → is_shard_not_found e ≡ false

format_labels-error :
    (r : Result (List Float32 × List ℤ)) (e : Err)
    → ((z : Err) → r ≡ err z → is_shard_not_found z ≡ false)
    → format_labels r ≡ err e
    → is_shard_not_found e ≡ false
unfolding format_labels
format_labels-error (err z) e own q =
    let z-e : z ≡ e = cc in ap is_shard_not_found (sym z-e) ∙ own z refl
format_labels-error (ok (ds, ls)) e own q = absurd (cc)

search_handle-error :
    (lib : Library) (serving : Option ℕ) (x : List Float32) (k : ℤ) (e : Err)
    → IsOwnErrors lib
    → search_handle lib x k serving ≡ err e
    → is_shard_not_found e ≡ false
unfolding search_handle
search_handle-error lib none x k e own q = ground arith
search_handle-error lib (some h) x k e own q =
    ground (arith, format_labels-error (lib.search h x k) e (own h x k))

-- No search of a loaded shard says that the shard is not found.
pub search-error :
    (lib : Library) (f : FaissIndex) (x : List Float32) (k : ℤ) (e : Err)
    → IsOwnErrors lib
    → search lib f x k ≡ err e
    → is_shard_not_found e ≡ false
unfolding search
search-error lib f x k e own q = search_handle-error lib f.index x k e own q
