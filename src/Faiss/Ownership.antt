-- ===== src/Faiss/Ownership.antt =====
-- Who owns the native handles of a shard.
use vectory.Base.{
  ℕ, ◌+◌, ◌≤◌, ◌≡◌, ◌≢◌, ◌⊎◌, inl, inr, refl, sym, ◌∙◌, List, [], ◌∷◌, Option, none, some, Bytes, ℤ,
  ◌==◌, if◌then◌else◌, arith, same_ℤ, Bool-cases,
}
use vectory.Errors.{Err, Result, ok, err}
use vectory.Faiss.Calls.{Call, stage, commit, discards, step, run}
use vectory.Faiss.{
  FaissIndex, Native, Loader, Fetch, Downloader, stage_put, stage_read, stage_fetch, stage_reload,
  commit_swap, commit_staged, discard, discard_staged, delete_serving, delete,
}

-- How often a handle stands in a list.
unfoldable pub count : ℕ → List ℕ → ℕ
count h [] = 0
count h (x ∷ xs) = (if x == h then 1 else 0) + count h xs

abbrev pub held : Option ℕ → List ℕ
held none = []
held (some h) = h ∷ []

-- Every handle was given out once at most, and each that was given out is either freed, once, or
-- serving, or staged.
pub record IsOwned (f : FaissIndex) (n : Native) : Type 0 where
  pub once : (h : ℕ) → count h n.opened ≤ 1
  pub balanced :
      (h : ℕ)
      → count h n.opened
        ≡ count h n.freed + (count h (held f.index) + count h (held f.staged_index))

-- The library gives out no handle that it gave out before.
abbrev pub IsFresh : Loader → Native → Type 0
IsFresh l n = (path : Bytes) (h : ℕ) → l.read_index path ≡ ok h → count h n.opened ≡ 0

stage_put-IsOwned :
    (f : FaissIndex) (n : Native) (u : Fetch) (r : Result ℕ)
    → ((h : ℕ) → r ≡ ok h → count h n.opened ≡ 0)
    → IsOwned f n
    → let o = stage_put f n u r in IsOwned o.0 o.1
unfolding stage_put count
stage_put-IsOwned f n u (err e) new v = v
stage_put-IsOwned f n u (ok h) new v = record {
  once = λ x. ground (arith, v.once x, new h refl);
  balanced = λ x. ground (arith, v.balanced x);
}

stage_read-IsOwned :
    (l : Loader) (f : FaissIndex) (n : Native) (u : Fetch) (e : Option Err)
    → IsFresh l n
    → IsOwned f n
    → let o = stage_read l f n u e in IsOwned o.0 o.1
unfolding stage_read
stage_read-IsOwned l f n u (some e) new v = v
stage_read-IsOwned l f n u none new v = stage_put-IsOwned f n u (l.read_index u.path) (new u.path) v

stage_fetch-IsOwned :
    (l : Loader) (f : FaissIndex) (n : Native) (r : Result Downloader)
    → IsFresh l n
    → IsOwned f n
    → let o = stage_fetch l f n r in IsOwned o.0 o.1
unfolding stage_fetch
stage_fetch-IsOwned l f n (err e) new v = v
stage_fetch-IsOwned l f n (ok d) new v =
    stage_read-IsOwned l f n (d.download_update f.revision) _ new v

-- Staging keeps the ownership of the handles on every path: a new handle is held, and the one it
-- replaces is freed, provided that the library gives out new handles only.
pub stage_reload-IsOwned :
    (l : Loader) (f : FaissIndex) (n : Native)
    → IsFresh l n
    → IsOwned f n
    → let o = stage_reload l f n in IsOwned o.0 o.1
unfolding stage_reload
stage_reload-IsOwned l f n new v = elim (Bool-cases f.reloading) [
  | inl e ↦ simp e v
  | inr e ↦ simp e (stage_fetch-IsOwned l f n (l.new_downloader f.source f.shard) new v)
]

commit_swap-IsOwned :
    (expected : ℤ) (f : FaissIndex) (n : Native) (staged : Option ℕ)
    → f.staged_index ≡ staged
    → IsOwned f n
    → let o = commit_swap f n expected staged in IsOwned o.0 o.1
unfolding commit_swap count
commit_swap-IsOwned expected f n none e v = v
commit_swap-IsOwned expected f n (some h) e v =
    elim (Bool-cases (same_ℤ f.staged_revision expected)) [
      | inl q ↦ rw q (record {
        once = λ x. ground (arith, v.once x);
        balanced = λ x. ground (arith, v.balanced x);
      })
      | inr q ↦ rw q v
    ]

-- A commit frees the index that served before it and no other; a refused one frees nothing.
pub commit_staged-IsOwned :
    (expected : ℤ) (f : FaissIndex) (n : Native)
    → IsOwned f n
    → let o = commit_staged expected f n in IsOwned o.0 o.1
unfolding commit_staged
commit_staged-IsOwned expected f n v = commit_swap-IsOwned expected f n f.staged_index refl v

discard-IsOwned :
    (f : FaissIndex) (n : Native) (staged : Option ℕ)
    → f.staged_index ≡ staged
    → IsOwned f n
    → let o = discard f n staged in IsOwned o.0 o.1
unfolding discard count
discard-IsOwned f n none e v = v
discard-IsOwned f n (some h) e v = record {
  once = λ x. ground (arith, v.once x);
  balanced = λ x. ground (arith, v.balanced x);
}

pub discard_staged-IsOwned :
    (f : FaissIndex) (n : Native) → IsOwned f n → let o = discard_staged f n in IsOwned o.0 o.1
unfolding discard_staged
discard_staged-IsOwned f n v = discard-IsOwned f n f.staged_index refl v

-- With owned handles, a handle that serves or is staged is not freed, and no handle does both.
pub IsOwned-not_freed :
    (f : FaissIndex) (n : Native) (h : ℕ)
    → IsOwned f n
    → (f.index ≡ some h) ⊎ (f.staged_index ≡ some h)
    → (count h n.freed ≡ 0) × (f.index ≢ f.staged_index)
unfolding count
IsOwned-not_freed f n h v (inl e) = ground (arith, v.once h, v.balanced h)
IsOwned-not_freed f n h v (inr e) = ground (arith, v.once h, v.balanced h)

-- Each loader gives out new handles at the state in which it is used.
abbrev pub AllFresh : List Call → FaissIndex × Native → Type 0
AllFresh [] s = Unit
AllFresh (stage l ∷ cs) s = IsFresh l s.1 × AllFresh cs (step (stage l) s)
AllFresh (c ∷ cs) s = AllFresh cs (step c s)

run-IsOwned :
    (cs : List Call) (s : FaissIndex × Native)
    → AllFresh cs s
    → IsOwned s.0 s.1
    → IsOwned (run cs s).0 (run cs s).1
unfolding run step
run-IsOwned [] s new v = v
run-IsOwned (stage l ∷ cs) (f, n) new v =
    run-IsOwned cs _ new.1 (stage_reload-IsOwned l f n new.0 v)
run-IsOwned (commit r ∷ cs) (f, n) new v = run-IsOwned cs _ new (commit_staged-IsOwned r f n v)
run-IsOwned (discards ∷ cs) (f, n) new v = run-IsOwned cs _ new (discard_staged-IsOwned f n v)

-- After any sequence of stagings, commits and discards the handle that serves is not freed, nor is
-- it the one that is staged, provided that the library gives out new handles only, and that at the start
-- no handle was given out twice, and those given out are the freed ones and the ones that the index holds.
pub run-not_freed :
    (cs : List Call) (s : FaissIndex × Native) (h : ℕ)
    → AllFresh cs s
    → IsOwned s.0 s.1
    → (run cs s).0.index ≡ some h
    → (count h (run cs s).1.freed ≡ 0) × ((run cs s).0.staged_index ≢ some h)
run-not_freed cs s h new v e =
    let (a, b) = IsOwned-not_freed _ _ h (run-IsOwned cs s new v) (inl e) in (a, λ q. b (e ∙ sym q))

delete_serving-balanced :
    (f g : FaissIndex) (n k : Native) (h : ℕ)
    → f.staged_index ≡ none
    → IsOwned f n
    → delete_serving (f, n) ≡ some (g, k)
    → count h k.opened ≡ count h k.freed
unfolding delete_serving count
delete_serving-balanced f g n k h e v q = ground (arith, v.balanced h)

discard-clears :
    (f : FaissIndex) (n : Native) (staged : Option ℕ)
    → f.staged_index ≡ staged
    → (discard f n staged).0.staged_index ≡ none
unfolding discard
discard-clears f n none e = e
discard-clears f n (some h) e = refl

-- Delete frees all that is left: afterwards every handle that was given out was freed, exactly as
-- often as it was given out.
pub delete-balanced :
    (f g : FaissIndex) (n k : Native) (h : ℕ)
    → IsOwned f n
    → delete f n ≡ some (g, k)
    → count h k.opened ≡ count h k.freed
unfolding delete discard_staged
delete-balanced f g n k h v q =
    delete_serving-balanced _ g _ k h (discard-clears f n f.staged_index refl)
      (discard_staged-IsOwned f n v) q
