-- ===== src/Index/Accessors.antt =====
-- What can be read of an index: internal/engine/faiss.go and mock.go, with the table of metrics of
-- internal/engine/index.go. The numbers that a handle gives are an argument.
use vectory.Base.{
  ◌≡◌, refl, ap, [], ◌∷◌, Option, none, some, Bytes, codes, ℕ, ℤ, pos, Map, load, int_key, any,
  ◌==◌, ==_iff, List, if◌then◌else◌,
}
use vectory.Errors.{Err, nil_index}
use vectory.Shard.{Shard, IndexMeta}
use vectory.Faiss.Deleting.{delete-freed}
use vectory.Faiss.{delete as delete_faiss, FaissIndex, Native}
use vectory.Index.{Index, faiss, mock}

-- Other methods of a FaissIndexHandle.
pub record Reader : Type 0 where
  pub d : ℕ → ℤ
  pub n_total : ℕ → ℤ
  pub metric_type : ℕ → ℤ

-- `metricType`
abbrev pub metric_types : Map ℤ Bytes
metric_types =
    (pos 0, codes "INNER_PRODUCT")
    ∷ (pos 1, codes "L2")
    ∷ (pos 2, codes "L1")
    ∷ (pos 3, codes "Linf")
    ∷ (pos 4, codes "Lp")
    ∷ (pos 20, codes "Canberra")
    ∷ (pos 21, codes "BrayCurtis")
    ∷ (pos 22, codes "JensenShannon")
    ∷ (pos 23, codes "Jaccard")
    ∷ []

-- `metricType[m]`, which is empty for an unknown metric.
unfoldable pub metric_name : ℤ → Bytes
metric_name m = elim (load m metric_types) [ none ↦ [] | some name ↦ name ]

-- A method call on the handle; on one that is nil it is a panic, and on one that was freed the library
-- reads memory that is not its own.
through : {A : Type 0} → (ℕ → A) → Native → Option ℕ → Option A
through f n none = none
through f n (some h) = if any (λ k. k == h) n.freed then none else some (f h)

unfoldable pub vector_count : Reader → Native → Index → Option ℤ
unfolding through
vector_count lib n (faiss f) = through lib.n_total n f.index
vector_count lib n (mock m) = some (pos 123)

unfoldable pub metric_type : Reader → Native → Index → Option Bytes
unfolding through
metric_type lib n (faiss f) = through (λ h. metric_name (lib.metric_type h)) n f.index
metric_type lib n (mock m) = some (codes "mockType")

unfoldable pub input_dim : Reader → Native → Index → Option ℤ
unfolding through
input_dim lib n (faiss f) = through lib.d n f.index
input_dim lib n (mock m) = some m.manifest.meta.input_dim

nil_error : Option ℕ → Option Err
nil_error none = some nil_index
nil_error (some h) = none

unfoldable pub check_available : Index → Option Err
unfolding nil_error
check_available (faiss f) = nil_error f.index
check_available (mock m) = none

-- `Revision`, `Meta` and `Shard`
unfoldable pub revision : Index → ℤ
revision (faiss f) = f.revision
revision (mock m) = m.revision

unfoldable pub meta : Index → IndexMeta
meta (faiss f) = f.manifest.meta
meta (mock m) = m.manifest.meta

unfoldable pub shard : Index → Shard
shard (faiss f) = f.shard
shard (mock m) = m.shard

through-freed :
    {A : Type 0} (f : ℕ → A) (n : Native) (o : Option ℕ) (h : ℕ) (hs : List ℕ)
    → o ≡ some h
    → n.freed ≡ h ∷ hs
    → through f n o ≡ none
unfolding through
through-freed f n o h hs e q = rw (e, q, (==_iff h h).1 refl) refl

-- An index whose Delete has returned still says that it is available, but the number of its vectors, its
-- metric and its dimension can not be read: the handle that it keeps was freed.
pub delete-unreadable :
    (lib : Reader) (f g : FaissIndex) (n d : Native)
    → delete_faiss f n ≡ some (g, d)
    → (check_available (faiss g) ≡ none)
      × (vector_count lib d (faiss g) ≡ none)
      × (metric_type lib d (faiss g) ≡ none)
      × (input_dim lib d (faiss g) ≡ none)
unfolding check_available nil_error vector_count metric_type input_dim
delete-unreadable lib f g n d q =
    let (h, hs, e, p) = delete-freed f g n d q in
    (
      ap nil_error e,
      through-freed lib.n_total d g.index h hs e p,
      through-freed (λ h. metric_name (lib.metric_type h)) d g.index h hs e p,
      through-freed lib.d d g.index h hs e p,
    )
