-- ===== src/Manager/Start/Loads.antt =====
-- What `loadIndex` gives, by the loop over the shards.
use vectory.Base.{
  ℕ, store, ◌≤◌, ◌≡◌, inl, inr, refl, ◌∙◌, subst, Bool, true, List, Option, none, some, Bytes,
  bytes_key, load, load-store_self, In, arith, Option-cases, ◌<◌, sym, ◌>>=◌,
}
use vectory.Errors.{Result, ok}
use vectory.Shard.{Shard, IndexManifest, shard_key, shard_as_key, generate_shards}
use vectory.Manager.{
  load_index, load_with, load_checked, keep_manifest, needs_in, IndexManager, Tools, Progress,
  load_shards,
}
use vectory.Manager.Rebalance.Steps.{bind_some}
use vectory.Index.Handles.{HasSource}
use vectory.Manager.Start.Loading.{
  There, Grows, load_shards-Grows, load_shards-Counts, load_shards-There, load_shards-some,
}

-- What a load of the shards `ss` of a manifest does, with the numbers of shards tried and loaded.
pub record Loads (need : Bytes → Bool) (m : IndexManifest) (ss : List Shard) (i j : IndexManager)
    (total success : ℕ) : Type 0 where
  pub there : (s : Shard) → In s ss → need (shard_key s) ≡ true → There s j
  pub grown : Grows i j
  pub fits : success ≤ total
  pub clean : success ≡ total → j.pending_shards ≡ i.pending_shards
  pub marked : success < total → (s : Shard) × (load s j.pending_shards ≡ some true)
  pub known : load m.meta.name j.index_manifests ≡ some m

abbrev started : IndexManager → Progress
started i = record { manager = i; total = 0; success = 0 }

abbrev with_manifest : IndexManifest → IndexManager → IndexManager
with_manifest m i = record i { index_manifests = store m.meta.name m i.index_manifests }

load_shards-Loads :
    (t : Tools) (need : Bytes → Bool) (m : IndexManifest) (ss : List Shard) (i : IndexManager)
    (p : Progress)
    → load_shards t m need ss (started i) ≡ some p
    → Loads need m ss i (with_manifest m p.manager) p.total p.success
load_shards-Loads t need m ss i p run =
    let g = load_shards-Grows t m need ss (started i) p run in
    let c =
      load_shards-Counts t m need i.pending_shards ss (started i) p
        (record { fits = omega arith; clean = λ q. refl; marked = λ q. absurd (omega (arith, q)) })
        run in
    record {
      there = λ s w e. load_shards-There t m need ss s (started i) p w e run;
      grown = record { kept = g.kept; pending = g.pending; same_mode = g.same_mode };
      fits = c.fits;
      clean = c.clean;
      marked = c.marked;
      known = load-store_self m.meta.name m _;
    }

-- With a ring to ask and a manifest whose product fits, `loadIndex` is the loop over the shards.
load_index-loop :
    (t : Tools) (owns : Option (Bytes → Bool)) (need : Bytes → Bool) (m : IndexManifest)
    (ss : List Shard) (i : IndexManager)
    → needs_in i.mode owns ≡ some need
    → generate_shards m ≡ some ss
    → load_index t owns m i ≡ (
        load_shards t m need ss (started i) >>= λ p.
        some (with_manifest m p.manager, ok (p.total, p.success)))
unfolding load_index load_with load_checked keep_manifest
load_index-loop t owns need m ss i n g = simp (n, g) refl

-- With a source, too, it returns without an error.
pub load_index-ok :
    (t : Tools) (owns : Option (Bytes → Bool)) (need : Bytes → Bool) (m : IndexManifest)
    (ss : List Shard) (i : IndexManager)
    → needs_in i.mode owns ≡ some need
    → generate_shards m ≡ some ss
    → HasSource m
    → (p : Progress) × (load_index t owns m i
        ≡ some (with_manifest m p.manager, ok (p.total, p.success)))
load_index-ok t owns need m ss i n g h =
    let (p, run) = load_shards-some t m need ss (started i) h in
    (p, load_index-loop t owns need m ss i n g ∙ rw run refl)

abbrev answer : IndexManager → ℕ → ℕ → Option (IndexManager × Result (ℕ × ℕ))
answer i a c = some (i, ok (a, c))

same_answer :
    (i j : IndexManager) (a b c d : ℕ) → answer i a c ≡ answer j b d → (i ≡ j) × (a ≡ b) × (c ≡ d)
same_answer i j a b c d q = (cc, cc, cc)

-- If it returns, there was no error.
pub load_index-returned :
    (t : Tools) (owns : Option (Bytes → Bool)) (need : Bytes → Bool) (m : IndexManifest)
    (ss : List Shard) (i : IndexManager) (x : IndexManager × Result (ℕ × ℕ))
    → needs_in i.mode owns ≡ some need
    → generate_shards m ≡ some ss
    → load_index t owns m i ≡ some x
    → (p : Progress) × (load_shards t m need ss (started i) ≡ some p)
      × (load_index t owns m i ≡ some (with_manifest m p.manager, ok (p.total, p.success)))
load_index-returned t owns need m ss i x n g q =
    let loop = load_index-loop t owns need m ss i n g in
    let (p, run, _) = bind_some (load_shards t m need ss (started i)) _ x (sym loop ∙ q) in
    (p, run, loop ∙ rw run refl)

pub load_index-Loads :
    (t : Tools) (owns : Option (Bytes → Bool)) (need : Bytes → Bool) (m : IndexManifest)
    (ss : List Shard) (i j : IndexManager) (total success : ℕ)
    → needs_in i.mode owns ≡ some need
    → generate_shards m ≡ some ss
    → load_index t owns m i ≡ some (j, ok (total, success))
    → Loads need m ss i j total success
load_index-Loads t owns need m ss i j total success n g q =
    let (p, run, whole) = load_index-returned t owns need m ss i _ n g q in
    let (first, second, third) = same_answer _ j _ total _ success (sym whole ∙ q) in
    subst (λ a. Loads need m ss i j a success) second
      (subst (λ a. Loads need m ss i j p.total a) third
        (subst (λ a. Loads need m ss i a p.total p.success) first
          (load_shards-Loads t need m ss i p run)))

-- A manifest whose product does not fit makes it panic.
pub load_index-listed :
    (t : Tools) (owns : Option (Bytes → Bool)) (need : Bytes → Bool) (m : IndexManifest)
    (i : IndexManager) (r : IndexManager × Result (ℕ × ℕ))
    → needs_in i.mode owns ≡ some need
    → load_index t owns m i ≡ some r
    → (ss : List Shard) × (generate_shards m ≡ some ss)
unfolding load_index load_with load_checked
load_index-listed t owns need m i r n q = elim (Option-cases (generate_shards m)) [
  | inl g ↦ let z : none ≡ some r = simp (n, g) at q in absurd (cc)
  | inr l ↦ l
]

-- After `loadIndex` each shard of the index that this node needs is loaded, or marked pending. The
-- manifest is stored, and the numbers of shards tried and loaded tell whether all went well: there
-- are no more loaded than tried.
pub load_index-There :
    (t : Tools) (owns : Option (Bytes → Bool)) (need : Bytes → Bool) (m : IndexManifest)
    (ss : List Shard) (i j : IndexManager) (total success : ℕ) (s : Shard)
    → needs_in i.mode owns ≡ some need
    → generate_shards m ≡ some ss
    → load_index t owns m i ≡ some (j, ok (total, success))
    → In s ss
    → need (shard_key s) ≡ true
    → There s j × (success ≤ total) × (load m.meta.name j.index_manifests ≡ some m)
load_index-There t owns need m ss i j total success s n g q w e =
    let l = load_index-Loads t owns need m ss i j total success n g q in
    (l.there s w e, l.fits, l.known)
