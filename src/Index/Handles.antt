-- ===== src/Index/Handles.antt =====
-- The handles that loaded indexes hold, by which they can be deleted.
use vectory.Base.{ℕ, ◌≡◌, refl, ◌∙◌, Option, none, some, Bool-cases, inl, inr, ◌>>=◌, subst}
use vectory.Errors.{Err, Result, ok, err, invalid_index_type}
use vectory.Shard.{
  IndexSource, Shard, IndexManifest, IndexType, ReloadSetting, ReloadMode, ScheduleSetting,
}
use vectory.Faiss.{give_out, FaissIndex, Native, Loader, Downloader, Fetch}
use vectory.Faiss.Deleting
use vectory.Index
use vectory.Index.{
  Index, MockIndex, faiss, mock, Scheduler, with_entry, reload_by_mode, start_reload,
  start_if_enabled, loaded_index, new_read, new_fetched, new_downloaded, new_faiss_index, new_from,
  as_faiss, as_mock, new_mock_index, new_by_type, new_index, freed_after,
}

-- A loaded FaissIndex has a serving handle, on which Delete may be called.
abbrev pub HasHandle : Index → Type 0
HasHandle (faiss f) = (h : ℕ) × (f.index ≡ some h)
HasHandle (mock m) = Unit

abbrev KeepsIndex : FaissIndex → Result FaissIndex → Type 0
KeepsIndex f (err e) = Unit
KeepsIndex f (ok g) = g.index ≡ f.index

with_entry-KeepsIndex : (f : FaissIndex) (r : Result ℕ) → KeepsIndex f (with_entry f r)
unfolding with_entry
with_entry-KeepsIndex f (err e) = tt
with_entry-KeepsIndex f (ok n) = refl

reload_by_mode-KeepsIndex :
    (add : Scheduler) (f : FaissIndex) (s : ScheduleSetting) (m : ReloadMode)
    → KeepsIndex f (reload_by_mode add f s m)
unfolding reload_by_mode
reload_by_mode-KeepsIndex add f s ReloadMode.passive = refl
reload_by_mode-KeepsIndex add f s ReloadMode.active = with_entry-KeepsIndex f _
reload_by_mode-KeepsIndex add f s (ReloadMode.other m) = refl

start_if_enabled-KeepsIndex :
    (add : Scheduler) (f : FaissIndex) (o : Option ReloadSetting)
    → KeepsIndex f (start_if_enabled add f o)
unfolding start_if_enabled start_reload
start_if_enabled-KeepsIndex add f none = refl
start_if_enabled-KeepsIndex add f (some s) = elim (Bool-cases s.enable) [
  | inl e ↦ rw e (reload_by_mode-KeepsIndex add f s.schedule s.mode)
  | inr e ↦ rw e refl
]

abbrev HoldsHandle : Native × Result FaissIndex → Type 0
HoldsHandle (n, err e) = Unit
HoldsHandle (n, ok f) = (h : ℕ) × (f.index ≡ some h)

kept-HoldsHandle :
    (n : Native) (f : FaissIndex) (h : ℕ) (r : Result FaissIndex)
    → f.index ≡ some h
    → KeepsIndex f r
    → HoldsHandle (n, r)
kept-HoldsHandle n f h (err e) p q = tt
kept-HoldsHandle n f h (ok g) p q = (h, q ∙ p)

module _ (l : Loader) (add : Scheduler) (m : IndexManifest) (source : IndexSource) (s : Shard)
    (n : Native) where
  read-HoldsHandle : (u : Fetch) (r : Result ℕ) → HoldsHandle (new_read add m source s n u r)
  unfolding new_read
  read-HoldsHandle u (err e) = tt
  read-HoldsHandle u (ok h) =
      kept-HoldsHandle (give_out h n) (loaded_index m source s u.revision h) h _ refl
        (start_if_enabled-KeepsIndex add (loaded_index m source s u.revision h) m.reload)

  fetched-HoldsHandle :
      (u : Fetch) (o : Option Err) → HoldsHandle (new_fetched l add m source s n u o)
  unfolding new_fetched
  fetched-HoldsHandle u (some e) = tt
  fetched-HoldsHandle u none = read-HoldsHandle u (l.read_index u.path)

  downloaded-HoldsHandle :
      (r : Result Downloader) → HoldsHandle (new_downloaded l add m source s n r)
  unfolding new_downloaded
  downloaded-HoldsHandle (err e) = tt
  downloaded-HoldsHandle (ok d) = fetched-HoldsHandle d.download d.download.error

-- Of an answer of `NewIndex`.
abbrev pub Serving : Native × Result Index → Type 0
Serving (n, err e) = Unit
Serving (n, ok x) = HasHandle x

as_faiss-Serving : (r : Native × Result FaissIndex) → HoldsHandle r → Serving (as_faiss r)
unfolding as_faiss
as_faiss-Serving (n, err e) h = tt
as_faiss-Serving (n, ok f) h = h

as_mock-Serving : (n : Native) (r : Result MockIndex) → Serving (as_mock n r)
unfolding as_mock
as_mock-Serving n (err e) = tt
as_mock-Serving n (ok m) = tt

-- A manifest of a type of index that reads its source has one.
abbrev pub HasSource : IndexManifest → Type 0
HasSource m = m.meta.kind ≡ IndexType.faiss → (source : IndexSource) × (m.source ≡ some source)

some_faiss :
    (o : Option (Native × Result FaissIndex)) (r : Native × Result Index)
    → (o >>= λ a. some (as_faiss a)) ≡ some r
    → (a : Native × Result FaissIndex) × (o ≡ some a) × (as_faiss a ≡ r)
some_faiss none r q = absurd (cc)
some_faiss (some a) r q = (a, refl, cc)

from-HoldsHandle :
    (l : Loader) (add : Scheduler) (m : IndexManifest) (s : Shard) (n : Native)
    (o : Option IndexSource) (a : Native × Result FaissIndex)
    → new_from l add m s n o ≡ some a
    → HoldsHandle a
unfolding new_from
from-HoldsHandle l add m s n none a q = absurd (cc)
from-HoldsHandle l add m s n (some source) a q =
    let same : new_downloaded l add m source s n (l.new_downloader source s) ≡ a = cc in
    subst HoldsHandle same (downloaded-HoldsHandle l add m source s n (l.new_downloader source s))

abbrev refusal : Native → Option (Native × Result Index)
refusal n = some (n, err invalid_index_type)

refused : (n : Native) (r : Native × Result Index) → refusal n ≡ some r → Serving r
refused n r q = let same : (n, err invalid_index_type) ≡ r = cc in subst Serving same tt

by_type-Serving :
    (l : Loader) (add : Scheduler) (m : IndexManifest) (s : Shard) (n : Native) (k : IndexType)
    (r : Native × Result Index)
    → new_by_type l add m s n k ≡ some r
    → Serving r
unfolding new_by_type new_faiss_index
by_type-Serving l add m s n IndexType.faiss r q =
    let (a, made, same) = some_faiss (new_from l add m s n m.source) r q in
    subst Serving same (as_faiss-Serving a (from-HoldsHandle l add m s n m.source a made))
by_type-Serving l add m s n IndexType.mock r q =
    let same : as_mock n (new_mock_index m s) ≡ r = cc in
    subst Serving same (as_mock-Serving n (new_mock_index m s))
by_type-Serving l add m s n IndexType.scann r q = refused n r q
by_type-Serving l add m s n IndexType.redis r q = refused n r q
by_type-Serving l add m s n (IndexType.other k) r q = refused n r q

-- Every index that `NewIndex` makes holds a handle.
pub new_index-Serving :
    (l : Loader) (add : Scheduler) (m : IndexManifest) (s : Shard) (n : Native)
    (r : Native × Result Index)
    → new_index l add m s n ≡ some r
    → Serving r
unfolding new_index
new_index-Serving l add m s n r q = by_type-Serving l add m s n m.meta.kind r q

by_type-some :
    (l : Loader) (add : Scheduler) (m : IndexManifest) (s : Shard) (n : Native) (k : IndexType)
    → m.meta.kind ≡ k
    → HasSource m
    → (r : Native × Result Index) × (new_by_type l add m s n k ≡ some r)
unfolding new_by_type new_faiss_index new_from
by_type-some l add m s n IndexType.faiss e h =
    let (source, q) = h e in
    (as_faiss (new_downloaded l add m source s n (l.new_downloader source s)), rw q refl)
by_type-some l add m s n IndexType.mock e h = (_, refl)
by_type-some l add m s n IndexType.scann e h = (_, refl)
by_type-some l add m s n IndexType.redis e h = (_, refl)
by_type-some l add m s n (IndexType.other k) e h = (_, refl)

-- With a source `NewIndex` does not panic.
pub new_index-some :
    (l : Loader) (add : Scheduler) (m : IndexManifest) (s : Shard) (n : Native)
    → HasSource m
    → (r : Native × Result Index) × (new_index l add m s n ≡ some r)
unfolding new_index
new_index-some l add m s n h = by_type-some l add m s n m.meta.kind refl h

-- An index that holds a handle is deleted without a panic.
pub delete-some :
    (x : Index) (n : Native) → HasHandle x → (d : Native) × (Index.delete x n ≡ some d)
unfolding Index.delete freed_after
delete-some (mock m) n h = (n, refl)
delete-some (faiss f) n (h, e) = let (g, d, q) = Deleting.delete-some f n h e in (d, rw q refl)
