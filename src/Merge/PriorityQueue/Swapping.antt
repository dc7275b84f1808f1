-- ===== src/Merge/PriorityQueue/Swapping.antt =====
-- What a swap does to a list: where the items go, and that they stay the same items.
use vectory.Base.{
  ℕ, zero, suc, ◌+◌, ◌<◌, ◌≡◌, inl, inr, refl, sym, ap, ◌∙◌, Bool, List, [], ◌∷◌, Option, none,
  some, length, get_elem?, set, length-set, Key, ◌==◌, arith, Bool-cases, if◌then◌else◌,
}
use vectory.Merge.{one}
use vectory.Merge.PriorityQueue.{swap, exchange}
use vectory.Merge.Items.{count}

-- The place from which a swap takes what it puts at an index.
abbrev pub from : ℕ → ℕ → ℕ → ℕ
from i j k = if k == j then i else if k == i then j else k

module _ {A : Type 0} where
  pub get-set :
      (xs : List A) (i k : ℕ) (v : A)
      → i < length xs
      → get_elem? (set xs i v) k ≡ (if k == i then some v else get_elem? xs k)
  get-set [] i k v h = absurd (omega (arith, h))
  get-set (x ∷ xs) zero zero v h = ground arith
  get-set (x ∷ xs) zero (suc k) v h = ground arith
  get-set (x ∷ xs) (suc i) zero v h = ground arith
  get-set (x ∷ xs) (suc i) (suc k) v h = get-set xs i k v (omega (arith, h)) ∙ ground arith

  pub get-some : (xs : List A) (i : ℕ) → i < length xs → (a : A) × (get_elem? xs i ≡ some a)
  get-some [] i h = absurd (omega (arith, h))
  get-some (x ∷ xs) zero h = (x, refl)
  get-some (x ∷ xs) (suc i) h = get-some xs i (omega (arith, h))

  pub get-swap :
      (less : A → A → Bool) (xs : List A) (i j k : ℕ)
      → i < length xs
      → j < length xs
      → get_elem? (swap less xs i j) k ≡ get_elem? xs (from i j k)
  get-swap less xs i j k hi hj =
      let (a, p) = get-some xs i hi in
      let (b, q) = get-some xs j hj in
      let outer = get-set (set xs i b) j k a (omega (arith, hj, length-set xs i b)) in
      let whole =
        ap (λ o. get_elem? (exchange less xs i j o (get_elem? xs j)) k) p
        ∙ ap (λ o. get_elem? (exchange less xs i j (some a) o) k) q in
      whole ∙ outer ∙ elim (Bool-cases (k == j)) [
        | inl e ↦ rw e (sym p)
        | inr e ↦ rw e (
            get-set xs i k b hi
            ∙ elim (Bool-cases (k == i)) [ inl d ↦ rw d (sym q) | inr d ↦ rw d refl ])
      ]

  pub length-swap :
      (less : A → A → Bool) (xs : List A) (i j : ℕ) → length (swap less xs i j) ≡ length xs
  length-swap less xs i j = go (get_elem? xs i) (get_elem? xs j)
    where
      go : (o p : Option A) → length (exchange less xs i j o p) ≡ length xs
      go (some a) (some b) = length-set (set xs i b) j a ∙ length-set xs i b
      go (some a) none = refl
      go none p = refl

module _ {A : Type 0} ⦃e : Key A⦄ where
  count-set :
      (xs : List A) (i : ℕ) (u v a : A)
      → get_elem? xs i ≡ some u
      → count a (set xs i v) + one u a ≡ count a xs + one v a
  unfolding count
  count-set [] i u v a h = absurd (cc)
  count-set (x ∷ xs) zero u v a h =
      let same : x ≡ u = cc in let w = ap (λ y. one y a) same in omega (arith, w)
  count-set (x ∷ xs) (suc i) u v a h = omega (arith, count-set xs i u v a h)

  set_again :
      (xs : List A) (i j : ℕ) (v : A) → get_elem? xs j ≡ some v → get_elem? (set xs i v) j ≡ some v
  set_again [] i j v h = h
  set_again (x ∷ xs) zero zero v h = refl
  set_again (x ∷ xs) zero (suc j) v h = h
  set_again (x ∷ xs) (suc i) zero v h = h
  set_again (x ∷ xs) (suc i) (suc j) v h = set_again xs i j v h

  -- A swap moves items and changes none.
  pub count-swap :
      (less : A → A → Bool) (xs : List A) (i j : ℕ) (a : A)
      → count a (swap less xs i j) ≡ count a xs
  count-swap less xs i j a = go (get_elem? xs i) (get_elem? xs j) refl refl
    where
      go :
          (o p : Option A)
          → get_elem? xs i ≡ o
          → get_elem? xs j ≡ p
          → count a (exchange less xs i j o p) ≡ count a xs
      go none p h k = refl
      go (some u) none h k = refl
      go (some u) (some v) h k =
          omega
            (arith, count-set xs i u v a h, count-set (set xs i v) j v u a (set_again xs i j v k))
