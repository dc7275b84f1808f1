-- ===== src/Merge/PriorityQueue/Popping.antt =====
-- Pop, and the priority queue as an implementation of the interface Heap of Merge.
use mathlib.Core.Path.{ap₂}
use vectory.Base.{
  ℕ, zero, suc, ◌+◌, ◌≤◌, ◌<◌, ◌≡◌, refl, sym, ap, ◌∙◌, subst, Bool, true, false, List, [], ◌∷◌,
  Option, none, some, length, get_elem?, Key, arith, Bool-cases, inl, inr, ltb,
}
use vectory.Merge.{one}
use vectory.Merge.Items.{count}
use vectory.Merge.PriorityQueue.{less_at, both, swap, parent, down, heap_pop}
use vectory.Merge.PriorityQueue.Swapping.{get-swap, length-swap, count-swap}
use vectory.Merge.PriorityQueue.Sifting.{IsWeakOrder, IsHeap, from_second, from_other, at_swap}
use vectory.Merge.PriorityQueue.Sinking.{IsDown, down-IsHeap, get-down}
use vectory.Merge.PriorityQueue.Holding.{count-down, length-down, pop_item-some, root_least}

module _ {A : Type 0} ⦃e : Key A⦄ (less : A → A → Bool) (o : IsWeakOrder less) where
  swapped-IsDown :
      (x : A) (xs : List A)
      → IsHeap less o (suc (length xs)) (x ∷ xs)
      → IsDown less o (length xs) (swap less (x ∷ xs) 0 (length xs)) 0
  swapped-IsDown x xs h = record {
    edges = λ k a b ne.
        at_swap less o (x ∷ xs) 0 (length xs) k (parent k) k (parent k) (omega arith) (omega arith)
          (from_other 0 (length xs) k (λ q. absurd (omega (arith, q, a)))
            (λ q. absurd (omega (arith, q, b))))
          (from_other 0 (length xs) (parent k) ne (λ q. absurd (omega (arith, q, b, a))))
          (h k a (omega arith));
    across = λ k a b c q. absurd (omega (arith, c));
    fits = omega (arith, length-swap less (x ∷ xs) 0 (length xs));
  }

  -- The list from which the last item is taken.
  abbrev sunk : A → List A → List A
  sunk x xs = down less (length xs) (swap less (x ∷ xs) 0 (length xs)) 0 (length xs)

  root_last : (x : A) (xs : List A) → get_elem? (sunk x xs) (length xs) ≡ some x
  unfolding down
  root_last x [] = refl
  root_last x (y ∷ ys) =
      let n = length (y ∷ ys) in
      get-down less o n n (swap less (x ∷ y ∷ ys) 0 n) 0 n
        (omega (arith, length-swap less (x ∷ y ∷ ys) 0 n)) (omega arith) (omega arith)
      ∙ get-swap less (x ∷ y ∷ ys) 0 n n (omega arith) (omega arith)
      ∙ ap (get_elem? (x ∷ y ∷ ys)) (from_second 0 n n refl)

  kept_heap :
      (zs ws : List A) (n : ℕ)
      → IsHeap less o n zs
      → length ws ≡ n
      → ((k : ℕ) → k < n → get_elem? ws k ≡ get_elem? zs k)
      → IsHeap less o (length ws) ws
  kept_heap zs ws n h l same k a b =
      let b' : k < n = omega arith in
      ap₂ (both less) (same k b') (same (parent k) (omega arith)) ∙ h k a b'

  get-none : (xs : List A) (k : ℕ) → length xs ≤ k → get_elem? xs k ≡ none
  get-none [] k h = refl
  get-none (x ∷ xs) zero h = absurd (omega (arith, h))
  get-none (x ∷ xs) (suc k) h = get-none xs k (omega (arith, h))

  root_of_all :
      (x : A) (xs : List A)
      → IsHeap less o (length (x ∷ xs)) (x ∷ xs)
      → (k : ℕ) → less_at less (x ∷ xs) k 0 ≡ false
  root_of_all x xs h k = elim (Bool-cases (ltb k (length (x ∷ xs)))) [
    | inl b ↦
        root_least less o (suc k) (length (x ∷ xs)) (x ∷ xs) k (omega arith) (ground arith)
          (omega arith) h
    | inr b ↦ ap (λ p. both less p (some x)) (get-none (x ∷ xs) k (ground arith))
  ]

  -- Pop of a heap takes out its root, and no item that it held is less. What is left is a heap, with
  -- every other item as often as before.
  pub heap_pop-Pops :
      (x : A) (xs : List A)
      → IsHeap less o (length (x ∷ xs)) (x ∷ xs)
      → (ws : List A) × (heap_pop less (x ∷ xs) ≡ some (x, ws))
        × IsHeap less o (length ws) ws
        × ((a : A) → count a (x ∷ xs) ≡ one x a + count a ws)
        × ((k : ℕ) → less_at less (x ∷ xs) k 0 ≡ false)
  unfolding heap_pop
  heap_pop-Pops x xs h =
      let n = length xs in
      let start = swap less (x ∷ xs) 0 n in
      let long : length (sunk x xs) ≡ suc n =
        length-down less n start 0 n ∙ length-swap less (x ∷ xs) 0 n in
      let (ws, q, l, same, counts) = pop_item-some less (sunk x xs) n x long (root_last x xs) in
      let heap = down-IsHeap less o n n start 0 (omega arith) (swapped-IsDown x xs h) in
      (
        ws,
        q,
        kept_heap (sunk x xs) ws n heap l same,
        λ a. sym (count-down less n start 0 n a ∙ count-swap less (x ∷ xs) 0 n a) ∙ counts a,
        root_of_all x xs h,
      )

  count-absent : (xs : List A) (a : A) → ((k : ℕ) → get_elem? xs k ≡ some a → ⊥) → count a xs ≡ 0
  unfolding count
  count-absent [] a n = refl
  count-absent (x ∷ xs) a n = elim (Bool-cases (e.same x a)) [
    | inl q ↦ absurd (n 0 (ap some ((e.same_iff x a).0 q)))
    | inr q ↦ rw q (omega (arith, count-absent xs a (λ k. n (suc k))))
  ]

  pub least_counts :
      (x : A) (xs : List A) (a : A)
      → IsHeap less o (length (x ∷ xs)) (x ∷ xs)
      → less a x ≡ true
      → count a (x ∷ xs) ≡ 0
  least_counts x xs a h l =
      count-absent (x ∷ xs) a (λ k q.
        let z = ap (λ p. both less p (some x)) (sym q) ∙ root_of_all x xs h k in absurd (cc))

  abbrev some_pair : A → List A → Option (A × List A)
  some_pair x ws = some (x, ws)

  -- The items of a queue, in the order of a heap.
  abbrev pub Queue : Type 0
  Queue = (xs : List A) × IsHeap less o (length xs) xs

  same_left : (y x : A) (vs ws : List A) → some_pair y vs ≡ some_pair x ws → vs ≡ ws
  same_left y x vs ws q = cc

  pub left_heap :
      (xs ws : List A) (x : A)
      → IsHeap less o (length xs) xs
      → heap_pop less xs ≡ some (x, ws)
      → IsHeap less o (length ws) ws
  unfolding heap_pop
  left_heap [] ws x h q = absurd (cc)
  left_heap (y ∷ xs) ws x h q =
      let (vs, run, heap, _, _) = heap_pop-Pops y xs h in
      subst (λ z. IsHeap less o (length z) z) (same_left y x vs ws (sym run ∙ q)) heap

  unfoldable pub keep_order :
      (q : Queue) (p : Option (A × List A)) → heap_pop less q.0 ≡ p → Option (A × Queue)
  keep_order q none h = none
  keep_order q (some (x, ws)) h = some (x, (ws, left_heap q.0 ws x q.1 h))

  unfoldable pub pop_queue : Queue → Option (A × Queue)
  unfolding keep_order
  pop_queue q = keep_order q (heap_pop less q.0) refl

  -- Pop of a queue that is in the order of a heap takes out its root. No item of the queue, at
  -- whatever index, is less than that, and every item is left as often as before, but for the one
  -- taken.
  pub heap_pop-least :
      (x : A) (xs : List A) (a : A) (k : ℕ)
      → IsHeap less o (length (x ∷ xs)) (x ∷ xs)
      → (ws : List A) × (heap_pop less (x ∷ xs) ≡ some (x, ws))
        × (count a (x ∷ xs) ≡ one x a + count a ws)
        × (less_at less (x ∷ xs) k 0 ≡ false)
  heap_pop-least x xs a k h =
      let (ws, run, _, counts, least) = heap_pop-Pops x xs h in (ws, run, counts a, least k)
