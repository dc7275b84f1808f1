-- ===== src/Merge/PriorityQueue/Sinking.antt =====
-- How `down` restores the order of a heap after its root was taken.
use vectory.Base.{
  ℕ, ◌+◌, ◌*◌, ◌≤◌, ◌<◌, ◌≡◌, ◌≢◌, ◌⊎◌, inl, inr, sym, ap, ◌∙◌, subst, Bool, true, false, List,
  length, ltb, arith, Bool-cases, suc, get_elem?, leb, zero, refl, if◌then◌else◌,
}
use vectory.Merge.PriorityQueue.{less_at, swap, parent, child, down}
use vectory.Merge.PriorityQueue.Swapping.{length-swap, get-swap}
use vectory.Merge.PriorityQueue.Sifting.{
  IsWeakOrder, IsHeap, same_or_not, from_second, from_first, from_other, at_one_way, at_swap,
  at_chain,
}

module _ {A : Type 0} (less : A → A → Bool) (o : IsWeakOrder less) where
  -- A heap but for the item `i`, which may be greater than its children; those are not less than its
  -- parent.
  pub record IsDown (n : ℕ) (xs : List A) (i : ℕ) : Type 0 where
    pub edges : (k : ℕ) → 1 ≤ k → k < n → parent k ≢ i → less_at less xs k (parent k) ≡ false
    pub across :
        (k : ℕ) → 1 ≤ k → k < n → 1 ≤ i → parent k ≡ i → less_at less xs k (parent i) ≡ false
    pub fits : n ≤ length xs

  -- The chosen child: it is a child, and no child is less.
  abbrev IsLeast : ℕ → List A → ℕ → ℕ → Type 0
  IsLeast n xs i j =
      (j < n)
      × (parent j ≡ i)
      × (i < j)
      × ((k : ℕ) → 1 ≤ k → k < n → parent k ≡ i → less_at less xs k j ≡ false)

  pub not_self : (xs : List A) (j : ℕ) → less_at less xs j j ≡ false
  not_self xs j = elim (Bool-cases (less_at less xs j j)) [
    | inl e ↦ at_one_way less o xs j j e
    | inr e ↦ e
  ]

  children : (i k : ℕ) → 1 ≤ k → parent k ≡ i → (k ≡ 2 * i + 1) ⊎ (k ≡ 2 * i + 2)
  children i k a e = elim (same_or_not k (2 * i + 1)) [ inl q ↦ inl q | inr q ↦ inr (grind arith) ]

  child-IsLeast : (n : ℕ) (xs : List A) (i : ℕ) → 2 * i + 1 < n → IsLeast n xs i (child less xs i n)
  child-IsLeast n xs i b = elim (Bool-cases (ltb (2 * i + 2) n)) [
    | inr e ↦ rw e (
      b,
      omega arith,
      omega arith,
      λ k one k_in p. elim (children i k one p) [
        | inl q ↦
            subst (λ x. less_at less xs x (2 * i + 1) ≡ false) (sym q) (not_self xs (2 * i + 1))
        | inr q ↦ absurd (ground (arith, e, q, k_in))
      ],
    )
    | inl e ↦ elim (Bool-cases (less_at less xs (2 * i + 2) (2 * i + 1))) [
      | inl l ↦
          rw (e, l)
            (
              ground arith,
              omega arith,
              omega arith,
              λ k one k_in p. elim (children i k one p) [
                | inl q ↦
                    subst (λ x. less_at less xs x (2 * i + 2) ≡ false) (sym q)
                      (at_one_way less o xs (2 * i + 2) (2 * i + 1) l)
                | inr q ↦
                    subst (λ x. less_at less xs x (2 * i + 2) ≡ false) (sym q)
                      (not_self xs (2 * i + 2))
              ],
            )
      | inr l ↦
          rw (e, l)
            (
              b,
              omega arith,
              omega arith,
              λ k one k_in p. elim (children i k one p) [
                | inl q ↦
                    subst (λ x. less_at less xs x (2 * i + 1) ≡ false) (sym q)
                      (not_self xs (2 * i + 1))
                | inr q ↦ subst (λ x. less_at less xs x (2 * i + 1) ≡ false) (sym q) l
              ],
            )
    ]
  ]

  -- An item with no lesser child is in its place.
  IsDown-heap :
      (n : ℕ) (xs : List A) (i : ℕ)
      → IsDown n xs i
      → ((k : ℕ) → 1 ≤ k → k < n → parent k ≡ i → less_at less xs k i ≡ false)
      → IsHeap less o n xs
  IsDown-heap n xs i d h k a b = elim (same_or_not (parent k) i) [
    | inl e ↦ subst (λ x. less_at less xs k x ≡ false) (sym e) (h k a b e)
    | inr e ↦ d.edges k a b e
  ]

  module _ (n : ℕ) (xs : List A) (i j : ℕ) (d : IsDown n xs i) (l : IsLeast n xs i j)
      (h : less_at less xs j i ≡ true) where
    down_edges :
        (k : ℕ)
        → 1 ≤ k
        → k < n
        → parent k ≢ j
        → less_at less (swap less xs i j) k (parent k) ≡ false
    down_edges k a b ne =
        let (j_in, pj, i_j, least) = l in
        let f = d.fits in
        let hi : i < length xs = omega arith in
        let hj : j < length xs = omega arith in
        let apart : i ≢ j = λ q. absurd (omega (arith, q, i_j)) in
        elim (same_or_not k j) [
          | inl e ↦
              at_swap less o xs i j k (parent k) i j hi hj (from_second i j k e)
                (from_first i j (parent k) (ap parent e ∙ pj) apart) (at_one_way less o xs j i h)
          | inr kj ↦ elim (same_or_not (parent k) i) [
            | inl e ↦
                at_swap less o xs i j k (parent k) k j hi hj
                  (from_other i j k (λ q. absurd (omega (arith, q, e, a))) kj)
                  (from_first i j (parent k) e apart) (least k a b e)
            | inr pi ↦ elim (same_or_not k i) [
              | inl e ↦
                  at_swap less o xs i j k (parent k) j (parent k) hi hj (from_first i j k e apart)
                    (from_other i j (parent k) pi ne)
                    (subst (λ x. less_at less xs j (parent x) ≡ false) (sym e)
                      (d.across j (omega arith) j_in (omega (arith, e, a)) pj))
              | inr ki ↦
                  at_swap less o xs i j k (parent k) k (parent k) hi hj (from_other i j k ki kj)
                    (from_other i j (parent k) pi ne) (d.edges k a b pi)
            ]
          ]
        ]

    down_across :
        (k : ℕ)
        → 1 ≤ k
        → k < n
        → 1 ≤ j
        → parent k ≡ j
        → less_at less (swap less xs i j) k (parent j) ≡ false
    down_across k a b one e =
        let (j_in, pj, i_j, least) = l in
        let f = d.fits in
        let hi : i < length xs = omega arith in
        let hj : j < length xs = omega arith in
        let apart : i ≢ j = λ q. absurd (omega (arith, q, i_j)) in
        at_swap less o xs i j k (parent j) k j hi hj
          (from_other i j k (λ q. absurd (omega (arith, q, e, i_j)))
            (λ q. absurd (omega (arith, q, e, a))))
          (from_first i j (parent j) pj apart)
          (subst (λ x. less_at less xs k x ≡ false) e
            (d.edges k a b (λ q. absurd (omega (arith, q, e, i_j)))))

    IsDown-step : IsDown n (swap less xs i j) j
    IsDown-step = record {
      edges = down_edges;
      across = down_across;
      fits = let f = d.fits in omega (arith, f, length-swap less xs i j);
    }

  down_stops :
      (f : ℕ) (xs : List A) (i n : ℕ)
      → (n ≤ 2 * i + 1) ⊎ (less_at less xs (child less xs i n) i ≡ false)
      → down less (suc f) xs i n ≡ xs
  unfolding down
  down_stops f xs i n (inl e) = ground arith
  down_stops f xs i n (inr e) = rw e (same_either (leb n (2 * i + 1)) xs)
    where
      same_either : (b : Bool) (ys : List A) → (if b then ys else ys) ≡ ys
      same_either true ys = refl
      same_either false ys = refl

  down_goes :
      (f : ℕ) (xs : List A) (i n : ℕ)
      → 2 * i + 1 < n
      → less_at less xs (child less xs i n) i ≡ true
      → down less (suc f) xs i n
        ≡ down less f (swap less xs i (child less xs i n)) (child less xs i n) n
  unfolding down
  down_goes f xs i n b e = let go : leb n (2 * i + 1) ≡ false = ground arith in rw (e, go) refl

  no_children : (n : ℕ) (xs : List A) (i : ℕ) → IsDown n xs i → n ≤ 2 * i + 1 → IsHeap less o n xs
  no_children n xs i d b = IsDown-heap n xs i d (λ k one k_in p. elim (children i k one p) [
    | inl q ↦ absurd (omega (arith, q, k_in, b))
    | inr q ↦ absurd (omega (arith, q, k_in, b))
  ])

  -- `down` makes a heap of it.
  pub down-IsHeap :
      (f n : ℕ) (xs : List A) (i : ℕ)
      → n ≤ f + i
      → IsDown n xs i
      → IsHeap less o n (down less f xs i n)
  unfolding down
  down-IsHeap zero n xs i b d = no_children n xs i d (omega (arith, b))
  down-IsHeap (suc f) n xs i b d = elim (Bool-cases (leb n (2 * i + 1))) [
    | inl e ↦
        subst (IsHeap less o n) (sym (down_stops f xs i n (inl (ground arith))))
          (no_children n xs i d (ground arith))
    | inr e ↦
        let inner : 2 * i + 1 < n = ground arith in
        let l = child-IsLeast n xs i inner in
        elim (Bool-cases (less_at less xs (child less xs i n) i)) [
          | inr q ↦ subst (IsHeap less o n) (sym (down_stops f xs i n (inr q))) (
              IsDown-heap n xs i d (λ k one k_in p.
                at_chain less o xs k (child less xs i n) i
                  (let c = l.0 in let z = d.fits in omega arith) (l.3 k one k_in p) q))
          | inl q ↦ subst (IsHeap less o n) (sym (down_goes f xs i n inner q)) (
              down-IsHeap f n (swap less xs i (child less xs i n)) (child less xs i n)
                (let c = l.2 in omega arith) (IsDown-step n xs i (child less xs i n) d l q))
        ]
  ]

  -- It moves no item behind the first `n`.
  pub get-down :
      (f n : ℕ) (xs : List A) (i k : ℕ)
      → n ≤ length xs
      → i < n
      → n ≤ k
      → get_elem? (down less f xs i n) k ≡ get_elem? xs k
  unfolding down
  get-down zero n xs i k a c b = refl
  get-down (suc f) n xs i k a c b = elim (Bool-cases (leb n (2 * i + 1))) [
    | inl e ↦ ap (λ ys. get_elem? ys k) (down_stops f xs i n (inl (ground arith)))
    | inr e ↦
        let inner : 2 * i + 1 < n = ground arith in
        let (j_in, _, i_j, _) = child-IsLeast n xs i inner in
        elim (Bool-cases (less_at less xs (child less xs i n) i)) [
          | inr q ↦ ap (λ ys. get_elem? ys k) (down_stops f xs i n (inr q))
          | inl q ↦
              ap (λ ys. get_elem? ys k) (down_goes f xs i n inner q)
              ∙ get-down f n (swap less xs i (child less xs i n)) (child less xs i n) k
                  (omega (arith, a, length-swap less xs i (child less xs i n))) j_in b
              ∙ get-swap less xs i (child less xs i n) k (omega arith) (omega arith)
              ∙ ap (get_elem? xs) (
                  from_other i (child less xs i n) k (λ z. absurd (omega (arith, z, b, c)))
                    (λ z. absurd (omega (arith, z, b, j_in))))
        ]
  ]
