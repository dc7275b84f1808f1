-- ===== src/Faiss/Deleting.antt =====
-- `Delete` of internal/engine/faiss.go on an index that serves a handle.
use vectory.Base.{
  ℕ, List, ◌∷◌, sym, ◌≡◌, refl, ◌∙◌, Option, none, some, ap, inl, inr, Bool-cases, ℤ,
}
use vectory.Faiss
use vectory.Faiss.{
  free, FaissIndex, Native, discard_staged, discard, delete_serving, Loader, Fetch, Downloader,
  reload, reload_swap, reload_read, reload_fetch, reload_stops, stage_reload, commit_staged,
}
use vectory.Errors.{Err, Result, ok, err}
use vectory.Faiss.Revision.{stage_reload-Stages, commit_staged-Commits}

discard_keeps : (f : FaissIndex) (n : Native) (o : Option ℕ) → (discard f n o).0.index ≡ f.index
unfolding discard
discard_keeps f n none = refl
discard_keeps f n (some h) = refl

freed :
    (p : FaissIndex × Native) (h : ℕ)
    → p.0.index ≡ some h
    → (n : Native) × (delete_serving p ≡ some (p.0, n))
unfolding delete_serving
freed (f, n) h e = (free h n, simp e)

-- It does not panic.
pub delete-some :
    (f : FaissIndex) (n : Native) (h : ℕ)
    → f.index ≡ some h
    → (g : FaissIndex) × (d : Native) × (Faiss.delete f n ≡ some (g, d))
unfolding Faiss.delete discard_staged
delete-some f n h e =
    let (d, q) = freed (discard f n f.staged_index) h (discard_keeps f n f.staged_index ∙ e) in
    (_, d, q)

freed_last :
    (p : FaissIndex × Native) (g : FaissIndex) (d : Native) (o : Option ℕ)
    → p.0.index ≡ o
    → delete_serving p ≡ some (g, d)
    → (h : ℕ) × (hs : List ℕ) × (g.index ≡ some h) × (d.freed ≡ h ∷ hs)
unfolding delete_serving
freed_last (f, n) g d none e q = let z : none ≡ some (g, d) = rw e at q in absurd (cc)
freed_last (f, n) g d (some h) e q =
    let whole : some (f, free h n) ≡ some (g, d) = simp e at q in
    let same : (f, free h n) ≡ (g, d) = cc in
    (
      h,
      n.freed,
      ap (λ (p : FaissIndex × Native). p.0.index) (sym same) ∙ e,
      ap (λ (p : FaissIndex × Native). p.1.freed) (sym same),
    )

-- The handle that it leaves in the index is freed.
pub delete-freed :
    (f g : FaissIndex) (n d : Native)
    → Faiss.delete f n ≡ some (g, d)
    → (h : ℕ) × (hs : List ℕ) × (g.index ≡ some h) × (d.freed ≡ h ∷ hs)
unfolding Faiss.delete
delete-freed f g n d q = freed_last (discard_staged f n) g d _ refl q

-- No call takes the serving handle away.
abbrev pub Holds : FaissIndex → Type 0
Holds f = (h : ℕ) × (f.index ≡ some h)

swap-Holds :
    (f : FaissIndex) (n : Native) (u : Fetch) (r : Result ℕ)
    → Holds f
    → Holds (reload_swap f n u r).0
unfolding reload_swap
swap-Holds f n u (err e) v = v
swap-Holds f n u (ok h) v = (h, refl)

read-Holds :
    (l : Loader) (f : FaissIndex) (n : Native) (u : Fetch) (o : Option Err)
    → Holds f
    → Holds (reload_read l f n u o).0
unfolding reload_read
read-Holds l f n u none v = swap-Holds f n u (l.read_index u.path) v
read-Holds l f n u (some e) v = v

fetch-Holds :
    (l : Loader) (f : FaissIndex) (n : Native) (r : Result Downloader)
    → Holds f
    → Holds (reload_fetch l f n r).0
unfolding reload_fetch
fetch-Holds l f n (err e) v = v
fetch-Holds l f n (ok d) v =
    let u = d.download_update f.revision in read-Holds l f n u (reload_stops u.error) v

pub reload-Holds : (l : Loader) (f : FaissIndex) (n : Native) → Holds f → Holds (reload l f n).0
unfolding reload
reload-Holds l f n v = elim (Bool-cases f.reloading) [
  | inl e ↦ simp e v
  | inr e ↦ simp e (fetch-Holds l f n (l.new_downloader f.source f.shard) v)
]

pub stage_reload-Holds :
    (l : Loader) (f : FaissIndex) (n : Native) → Holds f → Holds (stage_reload l f n).0
stage_reload-Holds l f n (h, e) = (h, (stage_reload-Stages l f n).0 ∙ e)

pub commit_staged-Holds :
    (r : ℤ) (f : FaissIndex) (n : Native) → Holds f → Holds (commit_staged r f n).0
commit_staged-Holds r f n (h, e) = elim (commit_staged-Commits r f n) [
  | inl (g, _, _, _, q, _, _, _, _) ↦ (g, q)
  | inr (_, _, same, _, _) ↦ (h, ap (λ (x : FaissIndex). x.index) same ∙ e)
]
