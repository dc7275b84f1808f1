-- ===== src/Merge/Items.antt =====
-- What is merged: every item once, and as many as are wanted.
use vectory.Base.{
  ℕ, zero, suc, ◌+◌, ◌≤◌, ◌≡◌, inl, inr, refl, sym, ap, ◌∙◌, Bool, true, false, List, [], ◌∷◌,
  Option, none, some, Key, ℤ, pos_part, length, leb, arith, Bool-cases, same_refl, if◌then◌else◌,
}
use vectory.Merge.{one, Heap, push_head, push_heads, advance, take_least, merge_sorted_lists}

module _ {A : Type 0} ⦃e : Key A⦄ where
  -- How often an item occurs in a list, in a list of lists, and among their first elements.
  unfoldable pub count : A → List A → ℕ
  count a [] = 0
  count a (x ∷ xs) = one x a + count a xs

  unfoldable pub count_all : A → List (List A) → ℕ
  count_all a [] = 0
  count_all a (l ∷ ls) = count a l + count_all a ls

  unfoldable pub head_count : A → List A → ℕ
  head_count a [] = 0
  head_count a (x ∷ xs) = one x a

  unfoldable pub heads : A → List (List A) → ℕ
  unfolding head_count
  heads a [] = 0
  heads a (l ∷ ls) = head_count a l + heads a ls

  unfoldable pub size : List (List A) → ℕ
  size [] = 0
  size (l ∷ ls) = length l + size ls

  pub one_self : (x : A) → one x x ≡ 1
  one_self x = rw (same_refl x)

  one_same : (x y a : A) → e.same x y ≡ true → one x a ≡ one y a
  one_same x y a q = ap (λ z. one z a) ((e.same_iff x y).0 q)

  -- An item that is not the first of a list starts a later one.
  later :
      (x y : A) (ls : List (List A))
      → e.same x y ≡ false
      → 1 ≤ one y x + heads x ls
      → 1 ≤ heads x ls
  later x y ls t w = elim (Bool-cases (e.same y x)) [
    | inl s ↦
        let back : e.same x y ≡ true = (e.same_iff x y).1 (sym ((e.same_iff y x).0 s)) in
        absurd (cc)
    | inr s ↦ omega (arith, none_of s)
  ]
    where
      none_of : e.same y x ≡ false → one y x ≡ 0
      none_of s = rw s

  module _ {less : A → A → Bool} (h : Heap A less) where
    open h use {Queue}

    holds-push_head :
        (q : Queue) (l : List A) (a : A)
        → h.holds (push_head h q l) a ≡ head_count a l + h.holds q a
    unfolding push_head head_count
    holds-push_head q [] a = omega arith
    holds-push_head q (x ∷ xs) a = h.holds-push q x a

    holds-push_heads :
        (q : Queue) (ls : List (List A)) (a : A)
        → h.holds (push_heads h q ls) a ≡ heads a ls + h.holds q a
    unfolding push_heads heads
    holds-push_heads q [] a = omega arith
    holds-push_heads q (l ∷ ls) a =
        omega (arith, holds-push_heads (push_head h q l) ls a, holds-push_head q l a)

    -- What the loop's step does to the queue and to the lists.
    holds-advance :
        (x : A) (q : Queue) (ls : List (List A)) (a : A)
        → 1 ≤ heads x ls
        → h.holds (advance h x q ls).0 a + heads a ls
          ≡ h.holds q a + (one x a + heads a (advance h x q ls).1)
    unfolding advance heads head_count
    holds-advance x q [] a w = omega arith
    holds-advance x q ([] ∷ ls) a w = omega (arith, holds-advance x q ls a (omega arith))
    holds-advance x q ((y ∷ ys) ∷ ls) a w = elim (Bool-cases (e.same x y)) [
      | inl t ↦ rw t (omega (arith, one_same x y a t, holds-push_head q ys a))
      | inr t ↦ rw t (omega (arith, holds-advance x q ls a (later x y ls t w)))
    ]

    count_all-advance :
        (x : A) (q : Queue) (ls : List (List A)) (a : A)
        → 1 ≤ heads x ls
        → count_all a ls ≡ one x a + count_all a (advance h x q ls).1
    unfolding advance heads head_count count_all count
    count_all-advance x q [] a w = omega arith
    count_all-advance x q ([] ∷ ls) a w = omega (arith, count_all-advance x q ls a (omega arith))
    count_all-advance x q ((y ∷ ys) ∷ ls) a w = elim (Bool-cases (e.same x y)) [
      | inl t ↦ rw t (omega (arith, one_same x y a t))
      | inr t ↦ rw t (omega (arith, count_all-advance x q ls a (later x y ls t w)))
    ]

    size-advance :
        (x : A) (q : Queue) (ls : List (List A))
        → 1 ≤ heads x ls
        → size ls ≡ suc (size (advance h x q ls).1)
    unfolding advance heads head_count size
    size-advance x q [] w = omega arith
    size-advance x q ([] ∷ ls) w = omega (arith, size-advance x q ls (omega arith))
    size-advance x q ((y ∷ ys) ∷ ls) w = elim (Bool-cases (e.same x y)) [
      | inl t ↦ rw t (omega arith)
      | inr t ↦ rw t (omega (arith, size-advance x q ls (later x y ls t w)))
    ]

    -- The queue holds exactly the first elements.
    unfoldable pub IsHeads : Queue → List (List A) → Type 0
    IsHeads q ls = (a : A) → h.holds q a ≡ heads a ls

    pub popped-head :
        (q r : Queue) (x : A) (ls : List (List A))
        → IsHeads q ls
        → h.pop q ≡ some (x, r)
        → 1 ≤ heads x ls
    unfolding IsHeads
    popped-head q r x ls inv p = omega (arith, inv x, h.holds-pop q r x x p, one_self x)

    pub IsHeads-advance :
        (q r : Queue) (x : A) (ls : List (List A))
        → IsHeads q ls
        → h.pop q ≡ some (x, r)
        → IsHeads (advance h x r ls).0 (advance h x r ls).1
    unfolding IsHeads
    IsHeads-advance q r x ls inv p a =
        omega
          (arith, inv a, h.holds-pop q r x a p, holds-advance x r ls a (popped-head q r x ls inv p))

    pub IsHeads-start : (ls : List (List A)) → IsHeads (push_heads h h.init ls) ls
    unfolding IsHeads
    IsHeads-start ls a = omega (arith, holds-push_heads h.init ls a, h.holds-init a)

    no_heads : (ls : List (List A)) → ((a : A) → heads a ls ≡ 0) → size ls ≡ 0
    unfolding heads head_count size
    no_heads [] z = refl
    no_heads ([] ∷ ls) z = omega (arith, no_heads ls (λ a. omega (arith, z a)))
    no_heads ((y ∷ ys) ∷ ls) z = absurd (omega (arith, z y, one_self y))

    take_least-count :
        (n : ℕ) (q : Queue) (ls : List (List A)) (a : A)
        → IsHeads q ls
        → count a (take_least h n q ls).0 + count_all a (take_least h n q ls).1 ≡ count_all a ls
    unfolding take_least count
    take_least-count zero q ls a inv = omega arith
    take_least-count (suc n) q ls a inv = go (h.pop q) refl (λ r s. take_least-count n r s a)
      where
        go :
            (o : Option (A × Queue))
            → h.pop q ≡ o
            → ((r : Queue) (s : List (List A))
                → IsHeads r s
                → count a (take_least h n r s).0 + count_all a (take_least h n r s).1
                  ≡ count_all a s)
            → count a (take_least h (suc n) q ls).0 + count_all a (take_least h (suc n) q ls).1
              ≡ count_all a ls
        go none p hyp = rw (p, take_least) (omega arith)
        go (some (x, r)) p hyp =
            rw (p, take_least)
              (omega (
                arith,
                hyp (advance h x r ls).0 (advance h x r ls).1 (IsHeads-advance q r x ls inv p),
                count_all-advance x r ls a (popped-head q r x ls inv p),
              ))

    nothing_left : (q : Queue) (ls : List (List A)) → IsHeads q ls → h.pop q ≡ none → size ls ≡ 0
    unfolding IsHeads
    nothing_left q ls inv p = no_heads ls (λ a. sym (inv a) ∙ h.pop-none q a p)

    length-take_least :
        (n : ℕ) (q : Queue) (ls : List (List A))
        → IsHeads q ls
        → length (take_least h n q ls).0 ≡ (if leb n (size ls) then n else size ls)
    unfolding take_least
    length-take_least zero q ls inv = grind arith
    length-take_least (suc n) q ls inv = go (h.pop q) refl (λ r s. length-take_least n r s)
      where
        go :
            (o : Option (A × Queue))
            → h.pop q ≡ o
            → ((r : Queue) (s : List (List A))
                → IsHeads r s
                → length (take_least h n r s).0 ≡ (if leb n (size s) then n else size s))
            → length (take_least h (suc n) q ls).0
              ≡ (if leb (suc n) (size ls) then suc n else size ls)
        go none p hyp = rw (p, take_least) (grind (arith, nothing_left q ls inv p))
        go (some (x, r)) p hyp =
            rw (p, take_least)
              (grind (
                arith,
                hyp (advance h x r ls).0 (advance h x r ls).1 (IsHeads-advance q r x ls inv p),
                size-advance x r ls (popped-head q r x ls inv p),
              ))

    -- The result has as many items as are wanted, or all of them if there are fewer; a negative
    -- number wants none.
    pub length-merge_sorted_lists :
        (ls : List (List A)) (cap : ℤ)
        → length (merge_sorted_lists h ls cap).0
          ≡ (if leb (pos_part cap) (size ls) then pos_part cap else size ls)
    unfolding merge_sorted_lists
    length-merge_sorted_lists ls cap =
        length-take_least (pos_part cap) (push_heads h h.init ls) ls (IsHeads-start ls)

    -- Merging neither loses nor makes items: what is merged and what is left in the lists are the
    -- items of the lists, each as often as before.
    pub count-merge_sorted_lists :
        (ls : List (List A)) (cap : ℤ) (a : A)
        → count a (merge_sorted_lists h ls cap).0 + count_all a (merge_sorted_lists h ls cap).1
          ≡ count_all a ls
    unfolding merge_sorted_lists
    count-merge_sorted_lists ls cap a =
        take_least-count (pos_part cap) (push_heads h h.init ls) ls a (IsHeads-start ls)
