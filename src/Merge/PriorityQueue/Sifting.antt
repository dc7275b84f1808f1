-- ===== src/Merge/PriorityQueue/Sifting.antt =====
-- The order of a heap, and how `up` restores it after a push.
use vectory.Base.{
  ℕ, zero, suc, ◌≤◌, ◌<◌, ◌≡◌, ◌≢◌, ◌⊎◌, inl, inr, refl, sym, ap, ◌∙◌, subst, Bool, true, false,
  List, Option, none, some, length, get_elem?, ◌==◌, arith, Bool-cases,
}
use vectory.Merge.PriorityQueue.{less_at, swap, both, parent, up}
use vectory.Merge.PriorityQueue.Swapping.{get-swap, get-some, from, length-swap}
use mathlib.Core.Path.{ap₂}

-- The order of the items: what is not less in turn is transitive, and less holds one way at most.
pub record IsWeakOrder {A : Type 0} (less : A → A → Bool) : Type 0 where
  pub chain : (a b c : A) → less a b ≡ false → less b c ≡ false → less a c ≡ false
  pub one_way : (a b : A) → less a b ≡ true → less b a ≡ false

pub same_or_not : (a b : ℕ) → (a ≡ b) ⊎ (a ≢ b)
same_or_not a b = grind arith

pub from_second : (i j k : ℕ) → k ≡ j → from i j k ≡ i
from_second i j k e = ground arith

pub from_first : (i j k : ℕ) → k ≡ i → i ≢ j → from i j k ≡ j
from_first i j k e n = ground arith

pub from_other : (i j k : ℕ) → k ≢ i → k ≢ j → from i j k ≡ k
from_other i j k n m = ground arith

module _ {A : Type 0} (less : A → A → Bool) (o : IsWeakOrder less) where
  -- No item is less than its parent, among the first `n`.
  abbrev pub IsHeap : ℕ → List A → Type 0
  IsHeap n xs = (k : ℕ) → 1 ≤ k → k < n → less_at less xs k (parent k) ≡ false

  both-chain :
      (p q r : Option A)
      → ((b : A) × (q ≡ some b))
      → both less p q ≡ false
      → both less q r ≡ false
      → both less p r ≡ false
  both-chain none q r d h k = refl
  both-chain (some a) q none d h k = refl
  both-chain (some a) none (some c) (b, e) h k = absurd (cc)
  both-chain (some a) (some b) (some c) d h k = o.chain a b c h k

  both-one_way : (p q : Option A) → both less p q ≡ true → both less q p ≡ false
  both-one_way none q h = absurd (cc)
  both-one_way (some a) none h = absurd (cc)
  both-one_way (some a) (some b) h = o.one_way a b h

  pub at_chain :
      (xs : List A) (i j k : ℕ)
      → j < length xs
      → less_at less xs i j ≡ false
      → less_at less xs j k ≡ false
      → less_at less xs i k ≡ false
  at_chain xs i j k h p q = both-chain _ _ _ (get-some xs j h) p q

  pub at_one_way :
      (xs : List A) (i j : ℕ) → less_at less xs i j ≡ true → less_at less xs j i ≡ false
  at_one_way xs i j p = both-one_way _ _ p

  -- After a swap, items compare as those they were.
  pub at_swap :
      (xs : List A) (i j a b c d : ℕ)
      → i < length xs
      → j < length xs
      → from i j a ≡ c
      → from i j b ≡ d
      → less_at less xs c d ≡ false
      → less_at less (swap less xs i j) a b ≡ false
  at_swap xs i j a b c d hi hj p q h =
      ap₂ (both less) (get-swap less xs i j a hi hj ∙ ap (get_elem? xs) p)
        (get-swap less xs i j b hi hj ∙ ap (get_elem? xs) q)
      ∙ h

  -- A heap but for the item `j`, which may be less than its parent; its children are not less than that.
  pub record IsUp (n : ℕ) (xs : List A) (j : ℕ) : Type 0 where
    pub edges : (k : ℕ) → 1 ≤ k → k < n → k ≢ j → less_at less xs k (parent k) ≡ false
    pub across :
        (k : ℕ) → 1 ≤ k → k < n → 1 ≤ j → parent k ≡ j → less_at less xs k (parent j) ≡ false
    pub inside : j < n
    pub fits : n ≤ length xs

  IsUp-heap :
      (n : ℕ) (xs : List A) (j : ℕ)
      → IsUp n xs j
      → ((1 ≤ j → less_at less xs j (parent j) ≡ false))
      → IsHeap n xs
  IsUp-heap n xs j u h k a b = elim (Bool-cases (k == j)) [
    | inl e ↦
        let same : k ≡ j = ground arith in
        subst (λ x. less_at less xs x (parent x) ≡ false) (sym same) (h (omega (arith, same, a)))
    | inr e ↦ u.edges k a b (λ q. ground arith)
  ]

  module _ (n : ℕ) (xs : List A) (j : ℕ) (one : 1 ≤ j) (u : IsUp n xs j)
      (h : less_at less xs j (parent j) ≡ true) where
    up_in : j < length xs
    up_in = let a = u.inside in let b = u.fits in omega arith

    up_edges :
        (k : ℕ)
        → 1 ≤ k
        → k < n
        → k ≢ parent j
        → less_at less (swap less xs (parent j) j) k (parent k) ≡ false
    up_edges k a b ne =
        let hj = up_in in
        let hi : parent j < length xs = omega arith in
        let apart : parent j ≢ j = λ q. absurd (omega (arith, q, one)) in
        let back = at_one_way xs j (parent j) h in
        elim (same_or_not k j) [
          | inl e ↦
              at_swap xs (parent j) j k (parent k) (parent j) j hi hj (from_second (parent j) j k e)
                (from_first (parent j) j (parent k) (ap parent e) apart) back
          | inr f ↦ elim (same_or_not (parent k) (parent j)) [
            | inl e ↦
                at_swap xs (parent j) j k (parent k) k j hi hj (from_other (parent j) j k ne f)
                  (from_first (parent j) j (parent k) e apart)
                  (at_chain xs k (parent j) j hi
                    (subst (λ x. less_at less xs k x ≡ false) e (u.edges k a b f)) back)
            | inr g ↦ elim (same_or_not (parent k) j) [
              | inl e ↦
                  at_swap xs (parent j) j k (parent k) k (parent j) hi hj
                    (from_other (parent j) j k ne f) (from_second (parent j) j (parent k) e)
                    (u.across k a b one e)
              | inr d ↦
                  at_swap xs (parent j) j k (parent k) k (parent k) hi hj
                    (from_other (parent j) j k ne f) (from_other (parent j) j (parent k) g d)
                    (u.edges k a b f)
            ]
          ]
        ]

    up_across :
        (k : ℕ)
        → 1 ≤ k
        → k < n
        → 1 ≤ parent j
        → parent k ≡ parent j
        → less_at less (swap less xs (parent j) j) k (parent (parent j)) ≡ false
    up_across k a b c e =
        let hj = up_in in
        let hi : parent j < length xs = omega arith in
        let apart : parent j ≢ j = λ q. absurd (omega (arith, q, one)) in
        let i_in : parent j < n = let z = u.inside in omega arith in
        let above = u.edges (parent j) c i_in apart in
        let stays =
          from_other (parent j) j (parent (parent j)) (λ q. absurd (omega (arith, q, c)))
            (λ q. absurd (omega (arith, q, one))) in
        elim (same_or_not k j) [
          | inl f ↦
              at_swap xs (parent j) j k (parent (parent j)) (parent j) (parent (parent j)) hi hj
                (from_second (parent j) j k f) stays above
          | inr f ↦
              at_swap xs (parent j) j k (parent (parent j)) k (parent (parent j)) hi hj
                (from_other (parent j) j k (λ q. absurd (omega (arith, q, e, a))) f) stays
                (at_chain xs k (parent j) (parent (parent j)) hi
                  (subst (λ x. less_at less xs k x ≡ false) e (u.edges k a b f)) above)
        ]

    -- The step of the loop.
    IsUp-step : IsUp n (swap less xs (parent j) j) (parent j)
    IsUp-step = record {
      edges = up_edges;
      across = up_across;
      inside = let i = u.inside in omega arith;
      fits = let f = u.fits in omega (arith, f, length-swap less xs (parent j) j);
    }

  up_stops :
      (f : ℕ) (xs : List A) (j : ℕ)
      → (parent j ≡ j) ⊎ (less_at less xs j (parent j) ≡ false)
      → up less (suc f) xs j ≡ xs
  unfolding up
  up_stops f xs j (inl e) = ground arith
  up_stops f xs j (inr e) = ground arith

  up_goes :
      (f : ℕ) (xs : List A) (j : ℕ)
      → parent j ≢ j
      → less_at less xs j (parent j) ≡ true
      → up less (suc f) xs j ≡ up less f (swap less xs (parent j) j) (parent j)
  unfolding up
  up_goes f xs j n e = ground arith

  -- `up` makes a heap of it.
  pub up-IsHeap : (f n : ℕ) (xs : List A) (j : ℕ) → j < f → IsUp n xs j → IsHeap n (up less f xs j)
  up-IsHeap zero n xs j b u = absurd (omega (arith, b))
  up-IsHeap (suc f) n xs j b u = elim (Bool-cases (less_at less xs j (parent j))) [
    | inr e ↦ subst (IsHeap n) (sym (up_stops f xs j (inr e))) (IsUp-heap n xs j u (λ q. e))
    | inl e ↦ elim (same_or_not (parent j) j) [
      | inl q ↦
          subst (IsHeap n) (sym (up_stops f xs j (inl q)))
            (IsUp-heap n xs j u (λ one. absurd (omega (arith, one, q))))
      | inr q ↦ subst (IsHeap n) (sym (up_goes f xs j q e)) (
          up-IsHeap f n (swap less xs (parent j) j) (parent j) (omega (arith, b, q))
            (IsUp-step n xs j (omega (arith, q)) u e))
    ]
  ]
