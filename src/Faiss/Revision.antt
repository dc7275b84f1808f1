-- ===== src/Faiss/Revision.antt =====
-- Which revision a shard serves.
use vectory.Base.{
  ℕ, ◌≡◌, ◌≢◌, ◌⊎◌, inl, inr, refl, false, List, [], ◌∷◌, Option, none, some, ℤ, pos, ◌<ℤ◌, ◌≤ℤ◌,
  same_ℤ, same_ℤ_iff, Bool-cases, arith,
}
use vectory.Errors.{Err, Result, ok, err, already_reloading}
use vectory.Shard.{Shard, IndexSource}
use vectory.Faiss.Calls.{Call, stage, commit, discards, step, run}
use vectory.Faiss.{
  Outcome, FaissIndex, Native, Loader, Fetch, Downloader, give_out, free_all, stage_reload,
  stage_fetch, stage_read, stage_put, commit_staged, commit_swap, discard_staged, discard,
}

-- The serving side of a shard, and all that staging does to the rest.
abbrev pub Stages : FaissIndex → Native → Outcome ℤ → Type 0
Stages f n o =
    (o.0.index ≡ f.index)
    × (o.0.revision ≡ f.revision)
    × (o.0.shard ≡ f.shard)
    × (o.0.manifest ≡ f.manifest)
    × (((e : Err) × (o.2 ≡ err e) × (o.0 ≡ f) × (o.1 ≡ n))
        ⊎ ((v : ℤ) × (h : ℕ) × (o.2 ≡ ok v)
            × (o.0.staged_index ≡ some h)
            × (o.0.staged_revision ≡ v)
            × (o.1 ≡ free_all f.staged_index (give_out h n))))

refused : (f : FaissIndex) (n : Native) (e : Err) → Stages f n (f, n, err e)
refused f n e = (refl, refl, refl, refl, inl (e, refl, refl, refl))

stage_put-Stages :
    (f : FaissIndex) (n : Native) (u : Fetch) (r : Result ℕ) → Stages f n (stage_put f n u r)
unfolding stage_put
stage_put-Stages f n u (err e) = refused f n e
stage_put-Stages f n u (ok h) =
    (refl, refl, refl, refl, inr (u.revision, h, refl, refl, refl, refl))

stage_read-Stages :
    (l : Loader) (f : FaissIndex) (n : Native) (u : Fetch) (e : Option Err)
    → Stages f n (stage_read l f n u e)
unfolding stage_read
stage_read-Stages l f n u (some e) = refused f n e
stage_read-Stages l f n u none = stage_put-Stages f n u (l.read_index u.path)

stage_fetch-Stages :
    (l : Loader) (f : FaissIndex) (n : Native) (r : Result Downloader)
    → Stages f n (stage_fetch l f n r)
unfolding stage_fetch
stage_fetch-Stages l f n (err e) = refused f n e
stage_fetch-Stages l f n (ok d) = stage_read-Stages l f n (d.download_update f.revision) _

-- Staging never touches what is served: index, revision, shard and manifest stay, on every path. A
-- refused call changes nothing. A successful one stages one new handle at the revision that it
-- returns, and frees the handle that was staged before.
pub stage_reload-Stages :
    (l : Loader) (f : FaissIndex) (n : Native) → Stages f n (stage_reload l f n)
unfolding stage_reload
stage_reload-Stages l f n = elim (Bool-cases f.reloading) [
  | inl e ↦ simp e (refused f n already_reloading)
  | inr e ↦ simp e (stage_fetch-Stages l f n (l.new_downloader f.source f.shard))
]

-- What a commit of a revision does.
abbrev pub Commits : ℤ → FaissIndex → Native → Outcome (Unit {0}) → Type 0
Commits expected f n o =
    ((h : ℕ) × (f.staged_index ≡ some h)
      × (f.staged_revision ≡ expected)
      × (o.2 ≡ ok tt)
      × (o.0.index ≡ some h)
      × (o.0.revision ≡ expected)
      × (o.0.staged_index ≡ none)
      × (o.0.staged_revision ≡ pos 0)
      × (o.1 ≡ free_all f.index n))
    ⊎ ((e : Err) × (o.2 ≡ err e)
        × (o.0 ≡ f)
        × (o.1 ≡ n)
        × ((f.staged_index ≡ none) ⊎ (f.staged_revision ≢ expected)))

commit_swap-Commits :
    (expected : ℤ) (f : FaissIndex) (n : Native) (staged : Option ℕ)
    → f.staged_index ≡ staged
    → Commits expected f n (commit_swap f n expected staged)
unfolding commit_swap
commit_swap-Commits expected f n none e = inr (_, refl, refl, refl, inl e)
commit_swap-Commits expected f n (some h) e =
    elim (Bool-cases (same_ℤ f.staged_revision expected)) [
      | inl q ↦
          let same = (same_ℤ_iff f.staged_revision expected).0 q in
          rw q (inl (h, e, same, refl, refl, same, refl, refl, refl))
      | inr q ↦ rw q (inr (_, refl, refl, refl, inr (λ p. differs p q)))
    ]
  where
    differs : f.staged_revision ≡ expected → same_ℤ f.staged_revision expected ≡ false → ⊥
    differs p q = let h = (same_ℤ_iff f.staged_revision expected).1 p in cc

-- A commit succeeds exactly when the expected revision is staged. It then serves the staged index
-- at that revision, has nothing staged any more, and frees the index that served before; otherwise
-- it changes nothing.
pub commit_staged-Commits :
    (expected : ℤ) (f : FaissIndex) (n : Native) → Commits expected f n (commit_staged expected f n)
unfolding commit_staged
commit_staged-Commits expected f n = commit_swap-Commits expected f n f.staged_index refl

-- A downloader that answers a request for an update with a newer revision or with an error, as
-- Downloader's implementations do while the source does not change during the call.
abbrev pub IsUpdating : Loader → Type 0
IsUpdating l =
    (source : IndexSource) (shard : Shard) (d : Downloader) (current : ℤ)
    → l.new_downloader source shard ≡ ok d
    → (d.download_update current).error ≡ none
    → current <ℤ (d.download_update current).revision

-- What is staged is newer than what is served.
abbrev pub IsNewer : FaissIndex → Type 0
IsNewer f = (f.staged_index ≡ none) ⊎ (f.revision <ℤ f.staged_revision)

stage_read-IsNewer :
    (l : Loader) (f : FaissIndex) (n : Native) (u : Fetch) (e : Option Err)
    → (e ≡ none → f.revision <ℤ u.revision)
    → IsNewer f
    → IsNewer (stage_read l f n u e).0
unfolding stage_read stage_put
stage_read-IsNewer l f n u (some e) up v = v
stage_read-IsNewer l f n u none up v = put (l.read_index u.path)
  where
    put : (r : Result ℕ) → IsNewer (stage_put f n u r).0
    put (err e) = v
    put (ok h) = inr (up refl)

stage_fetch-IsNewer :
    (l : Loader) (f : FaissIndex) (n : Native) (r : Result Downloader)
    → ((d : Downloader)
        → r ≡ ok d
        → (d.download_update f.revision).error ≡ none
        → f.revision <ℤ (d.download_update f.revision).revision)
    → IsNewer f
    → IsNewer (stage_fetch l f n r).0
unfolding stage_fetch
stage_fetch-IsNewer l f n (err e) up v = v
stage_fetch-IsNewer l f n (ok d) up v =
    stage_read-IsNewer l f n (d.download_update f.revision) _ (up d refl) v

stage_reload-IsNewer :
    (l : Loader) (f : FaissIndex) (n : Native)
    → IsUpdating l
    → IsNewer f
    → IsNewer (stage_reload l f n).0
unfolding stage_reload
stage_reload-IsNewer l f n up v = elim (Bool-cases f.reloading) [
  | inl e ↦ simp e v
  | inr e ↦ simp e (
      stage_fetch-IsNewer l f n (l.new_downloader f.source f.shard)
        (λ d p q. up f.source f.shard d f.revision p q) v)
]

abbrev pub AllUpdating : List Call → Type 0
AllUpdating [] = Unit
AllUpdating (stage l ∷ cs) = IsUpdating l × AllUpdating cs
AllUpdating (c ∷ cs) = AllUpdating cs

Grows : FaissIndex → FaissIndex → Type 0
Grows f g = IsNewer g × (f.revision ≤ℤ g.revision)

commit_staged-Grows :
    (expected : ℤ) (f : FaissIndex) (n : Native)
    → IsNewer f
    → Grows f (commit_staged expected f n).0
unfolding Grows
commit_staged-Grows expected f n v = elim (commit_staged-Commits expected f n) [
  | inl (h, held, same, _, _, now, none_left, _, _) ↦
      (inl none_left, rw (now, ← same) (newest h held v))
  | inr (e, _, kept, _, _) ↦ rw kept (v, omega arith)
]
  where
    newest : (h : ℕ) → f.staged_index ≡ some h → IsNewer f → f.revision ≤ℤ f.staged_revision
    newest h held (inl e) = absurd (cc)
    newest h held (inr lt) = omega arith

discard_staged-Grows : (f : FaissIndex) (n : Native) → IsNewer f → Grows f (discard_staged f n).0
unfolding Grows discard_staged
discard_staged-Grows f n v = dropped f.staged_index
  where
    dropped : (o : Option ℕ) → Grows f (discard f n o).0
    dropped none = (v, omega arith)
    dropped (some h) = (inl refl, omega arith)

le_of_same : (a b : ℤ) → b ≡ a → a ≤ℤ b
le_of_same a b e = ground arith

run-Grows :
    (cs : List Call) (s : FaissIndex × Native)
    → AllUpdating cs
    → IsNewer s.0
    → Grows s.0 (run cs s).0
unfolding run step Grows
run-Grows [] s up v = (v, omega arith)
run-Grows (stage l ∷ cs) (f, n) up v =
    let d = le_of_same f.revision _ (stage_reload-Stages l f n).1 in
    let (a, b) = run-Grows cs _ up.1 (stage_reload-IsNewer l f n up.0 v) in (a, omega arith)
run-Grows (commit r ∷ cs) (f, n) up v =
    let (c, d) = commit_staged-Grows r f n v in let (a, b) = run-Grows cs _ up c in (a, omega arith)
run-Grows (discards ∷ cs) (f, n) up v =
    let (c, d) = discard_staged-Grows f n v in let (a, b) = run-Grows cs _ up c in (a, omega arith)

-- Over any sequence of stagings, commits and discards the served revision never goes back, and what
-- is staged stays newer than what is served, given that it is so at the start and that each
-- downloader answers with a newer revision or an error.
pub run-revision_grows :
    (cs : List Call) (s : FaissIndex × Native)
    → AllUpdating cs
    → IsNewer s.0
    → IsNewer (run cs s).0 × (s.0.revision ≤ℤ (run cs s).0.revision)
unfolding Grows
run-revision_grows cs s up v = run-Grows cs s up v
