-- ===== src/Merge/Order.antt =====
-- The result of merging sorted lists is sorted, and nothing that is left belongs before it.
use vectory.Base.{
  ℕ, zero, suc, ◌≤◌, ◌≡◌, refl, sym, ◌∙◌, Bool, true, false, List, [], ◌∷◌, Option, none, some, Key,
  ℤ, pos_part, All, arith, Bool-cases, inl, inr, subst,
}
use vectory.Merge.{Heap, push_heads, advance, take_least, merge_sorted_lists}
use vectory.Merge.Items.{
  heads, head_count, IsHeads, popped-head, IsHeads-advance, IsHeads-start, one_self,
}

module _ {A : Type 0} (less : A → A → Bool) where
  -- Nothing in the list is less than `x`; and no later item of a list is less than an earlier one.
  abbrev pub NoneLess : A → List A → Type 0
  NoneLess x = All (λ y. less y x ≡ false)

  abbrev pub Sorted : List A → Type 0
  Sorted [] = Unit
  Sorted (x ∷ xs) = NoneLess x xs × Sorted xs

  -- `≥` is transitive.
  abbrev pub IsOrder : Type 0
  IsOrder = (a b c : A) → less a b ≡ false → less b c ≡ false → less a c ≡ false

  -- A result and what is left: the result is sorted, and nothing that is left is less than its items.
  abbrev pub IsMerged : List A × List (List A) → Type 0
  IsMerged (out, left) = Sorted out × All (λ x. All (NoneLess x) left) out

  None-trans : (x y : A) (ys : List A) → IsOrder → less y x ≡ false → NoneLess y ys → NoneLess x ys
  None-trans x y [] o p w = tt
  None-trans x y (z ∷ ys) o p (q, w) = (o z y x q p, None-trans x y ys o p w)

  module _ ⦃e : Key A⦄ (h : Heap A less) where
    open h use {Queue}

    -- What holds of every list and of its tails holds after a step.
    All-advance :
        (P : List A → Type 0)
        → ((y : A) (ys : List A) → P (y ∷ ys) → P ys)
        → (x : A) (q : Queue) (ls : List (List A)) → All P ls
        → All P (advance h x q ls).1
    unfolding advance
    All-advance P tail x q [] w = tt
    All-advance P tail x q ([] ∷ ls) (p, w) = (p, All-advance P tail x q ls w)
    All-advance P tail x q ((y ∷ ys) ∷ ls) (p, w) = elim (Bool-cases (e.same x y)) [
      | inl t ↦ rw t (tail y ys p, w)
      | inr t ↦ rw t (p, All-advance P tail x q ls w)
    ]

    -- The item that comes out is least among all that is left.
    least_among :
        (x : A) (ls : List (List A))
        → IsOrder
        → ((a : A) → less a x ≡ true → heads a ls ≡ 0)
        → All Sorted ls
        → All (NoneLess x) ls
    unfolding heads head_count
    least_among x [] o z w = tt
    least_among x ([] ∷ ls) o z (p, w) = (tt, least_among x ls o (λ a q. omega (arith, z a q)) w)
    least_among x ((y ∷ ys) ∷ ls) o z ((p, s), w) =
        let rest = least_among x ls o (λ a q. omega (arith, z a q)) w in
        elim (Bool-cases (less y x)) [
          | inl t ↦ absurd (omega (arith, z y t, one_self y))
          | inr t ↦ ((t, None-trans x y ys o t p), rest)
        ]

    popped_least :
        (q r : Queue) (x : A) (ls : List (List A))
        → IsHeads h q ls
        → h.pop q ≡ some (x, r)
        → (a : A) → less a x ≡ true
        → heads a ls ≡ 0
    unfolding IsHeads
    popped_least q r x ls inv p a l = sym (inv a) ∙ h.pop-least q r x a p l

    -- An item that starts a list has what all items have.
    head_has : (P : A → Type 0) (x : A) (ls : List (List A)) → 1 ≤ heads x ls → All (All P) ls → P x
    unfolding heads head_count
    head_has P x [] m w = absurd (omega arith)
    head_has P x ([] ∷ ls) m (p, w) = head_has P x ls (omega arith) w
    head_has P x ((y ∷ ys) ∷ ls) m ((p, v), w) = elim (Bool-cases (e.same y x)) [
      | inl t ↦ subst P ((e.same_iff y x).0 t) p
      | inr t ↦ let k = rw t at m in head_has P x ls (omega (arith, k)) w
    ]

    -- What holds of all items holds of those that are merged, and of those that are left.
    take_least-All :
        (P : A → Type 0) (n : ℕ) (q : Queue) (ls : List (List A))
        → IsHeads h q ls
        → All (All P) ls
        → All P (take_least h n q ls).0 × All (All P) (take_least h n q ls).1
    unfolding take_least
    take_least-All P zero q ls inv w = (tt, w)
    take_least-All P (suc n) q ls inv w = go (h.pop q) refl (λ r s. take_least-All P n r s)
      where
        go :
            (o : Option (A × Queue))
            → h.pop q ≡ o
            → ((r : Queue) (s : List (List A))
                → IsHeads h r s
                → All (All P) s
                → All P (take_least h n r s).0 × All (All P) (take_least h n r s).1)
            → All P (take_least h (suc n) q ls).0 × All (All P) (take_least h (suc n) q ls).1
        go none p hyp = rw (p, take_least) (tt, w)
        go (some (x, r)) p hyp =
            let (a, b) =
              hyp (advance h x r ls).0 (advance h x r ls).1 (IsHeads-advance h q r x ls inv p)
                (All-advance (All P) (λ y ys (v : All P (y ∷ ys)). v.1) x r ls w) in
            rw (p, take_least) ((head_has P x ls (popped-head h q r x ls inv p) w, a), b)

    take_least-Sorted :
        (n : ℕ) (q : Queue) (ls : List (List A))
        → IsOrder
        → IsHeads h q ls
        → All Sorted ls
        → IsMerged (take_least h n q ls)
    unfolding take_least
    take_least-Sorted zero q ls o inv w = (tt, tt)
    take_least-Sorted (suc n) q ls o inv w = go (h.pop q) refl (λ r s. take_least-Sorted n r s o)
      where
        go :
            (p : Option (A × Queue))
            → h.pop q ≡ p
            → ((r : Queue) (s : List (List A))
                → IsHeads h r s
                → All Sorted s
                → IsMerged (take_least h n r s))
            → IsMerged (take_least h (suc n) q ls)
        go none p hyp = rw (p, take_least) (tt, tt)
        go (some (x, r)) p hyp =
            let next = IsHeads-advance h q r x ls inv p in
            let (a, b) =
              hyp (advance h x r ls).0 (advance h x r ls).1 next
                (All-advance Sorted (λ y ys (v : Sorted (y ∷ ys)). v.1) x r ls w) in
            let (c, d) =
              take_least-All (λ y. less y x ≡ false) n (advance h x r ls).0 (advance h x r ls).1
                next
                (All-advance (NoneLess x) (λ y ys (v : NoneLess x (y ∷ ys)). v.1) x r ls
                  (least_among x ls o (popped_least q r x ls inv p) w)) in
            rw (p, take_least) ((c, a), (d, b))

    -- If no item of a list is less than one before it, and `≥` is transitive, then the same holds of
    -- the result, and no item that is left in the lists is less than one of the result.
    pub merge_sorted_lists-Sorted :
        (ls : List (List A)) (cap : ℤ)
        → IsOrder
        → All Sorted ls
        → IsMerged (merge_sorted_lists h ls cap)
    unfolding merge_sorted_lists
    merge_sorted_lists-Sorted ls cap o w =
        take_least-Sorted (pos_part cap) (push_heads h h.init ls) ls o (IsHeads-start h ls) w
