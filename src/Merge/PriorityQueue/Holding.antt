-- ===== src/Merge/PriorityQueue/Holding.antt =====
-- The priority queue as an implementation of the interface Heap of Merge.
use mathlib.Core.Path.{ap₂}
use vectory.Base.{
  ℕ, zero, suc, ◌+◌, ◌≡◌, refl, ◌∙◌, Bool, true, false, not, List, length, Key, ◌==◌, ◌||◌,
  if◌then◌else◌, ◌<◌, get_elem?, arith, ◌∷◌, [], some, sym, ap, ◌≤◌, subst, length-append,
}
use vectory.Merge.PriorityQueue.{
  less_at, swap, parent, child, up, down, push_item, pop_item, heap_push, both,
}
use vectory.Merge.PriorityQueue.Swapping.{length-swap, count-swap}
use vectory.Merge.Items.{count}
use vectory.Merge.{one}
use vectory.Merge.PriorityQueue.Sifting.{IsWeakOrder, IsHeap, IsUp, up-IsHeap, at_chain}
use vectory.Merge.PriorityQueue.Sinking.{not_self}

module _ {A : Type 0} ⦃e : Key A⦄ (less : A → A → Bool) where
  count-up : (f : ℕ) (xs : List A) (j : ℕ) (a : A) → count a (up less f xs j) ≡ count a xs
  unfolding up
  count-up zero xs j a = refl
  count-up (suc f) xs j a =
      go ((parent j == j) || not (less_at less xs j (parent j)))
        (count-up f (swap less xs (parent j) j) (parent j) a ∙ count-swap less xs (parent j) j a)
    where
      go :
          (b : Bool)
          → count a (up less f (swap less xs (parent j) j) (parent j)) ≡ count a xs
          → count a (if b then xs else up less f (swap less xs (parent j) j) (parent j))
            ≡ count a xs
      go true h = refl
      go false h = h

  -- A step of `down` ends with what it had or goes on.
  stops_or_goes :
      (P : List A → Type 0) (b c : Bool) (xs ys : List A)
      → P xs
      → P ys
      → P (if b then xs else if c then xs else ys)
  stops_or_goes P true c xs ys h k = h
  stops_or_goes P false true xs ys h k = h
  stops_or_goes P false false xs ys h k = k

  pub count-down :
      (f : ℕ) (xs : List A) (i n : ℕ) (a : A) → count a (down less f xs i n) ≡ count a xs
  unfolding down
  count-down zero xs i n a = refl
  count-down (suc f) xs i n a =
      let j = child less xs i n in
      stops_or_goes (λ ys. count a ys ≡ count a xs) _ _ xs _ refl
        (count-down f (swap less xs i j) j n a ∙ count-swap less xs i j a)

  pub length-down : (f : ℕ) (xs : List A) (i n : ℕ) → length (down less f xs i n) ≡ length xs
  unfolding down
  length-down zero xs i n = refl
  length-down (suc f) xs i n =
      let j = child less xs i n in
      stops_or_goes (λ ys. length ys ≡ length xs) _ _ xs _ refl
        (length-down f (swap less xs i j) j n ∙ length-swap less xs i j)

  length-up : (f : ℕ) (xs : List A) (j : ℕ) → length (up less f xs j) ≡ length xs
  unfolding up
  length-up zero xs j = refl
  length-up (suc f) xs j =
      stops_or_goes (λ ys. length ys ≡ length xs)
        ((parent j == j) || not (less_at less xs j (parent j))) false xs _ refl
        (length-up f (swap less xs (parent j) j) (parent j) ∙ length-swap less xs (parent j) j)

  get-push :
      (xs : List A) (x : A) (k : ℕ)
      → k < length xs
      → get_elem? (push_item less xs x) k ≡ get_elem? xs k
  get-push [] x k h = absurd (omega (arith, h))
  get-push (y ∷ xs) x zero h = refl
  get-push (y ∷ xs) x (suc k) h = get-push xs x k (omega (arith, h))

  count-push : (xs : List A) (x a : A) → count a (push_item less xs x) ≡ one x a + count a xs
  unfolding count
  count-push [] x a = refl
  count-push (y ∷ xs) x a = omega (arith, count-push xs x a)

  rest_same :
      (ws xs : List A) (y : A) (n : ℕ)
      → ((k : ℕ) → k < n → get_elem? ws k ≡ get_elem? xs k)
      → (k : ℕ) → k < suc n
      → get_elem? (y ∷ ws) k ≡ get_elem? (y ∷ xs) k
  rest_same ws xs y n same zero b = refl
  rest_same ws xs y n same (suc k) b = same k (omega (arith, b))

  -- Taking the last item off.
  pub pop_item-some :
      (xs : List A) (n : ℕ) (x : A)
      → length xs ≡ suc n
      → get_elem? xs n ≡ some x
      → (ws : List A) × (pop_item less xs ≡ some (x, ws))
        × (length ws ≡ n)
        × ((k : ℕ) → k < n → get_elem? ws k ≡ get_elem? xs k)
        × ((a : A) → count a xs ≡ one x a + count a ws)
  unfolding count
  pop_item-some [] n x h g = absurd (omega (arith, h))
  pop_item-some (y ∷ []) zero x h g =
      let same : y ≡ x = cc in
      (
        [],
        ap (λ z. some (z, [])) same,
        refl,
        (λ k b. absurd (omega (arith, b))),
        λ a. ap (λ z. one z a + 0) same,
      )
  pop_item-some (y ∷ []) (suc n) x h g = absurd (cc)
  pop_item-some (y ∷ z ∷ xs) zero x h g = absurd (omega (arith, h))
  pop_item-some (y ∷ z ∷ xs) (suc n) x h g =
      let (ws, q, l, same, count) = pop_item-some (z ∷ xs) n x (omega (arith, h)) g in
      (y ∷ ws, rw q refl, ap suc l, rest_same ws (z ∷ xs) y n same, λ a. omega (arith, count a))

module _ {A : Type 0} ⦃e : Key A⦄ (less : A → A → Bool) (o : IsWeakOrder less) where
  heap_at :
      (xs ys : List A) (n k : ℕ)
      → IsHeap less o n xs
      → ((i : ℕ) → i < n → get_elem? ys i ≡ get_elem? xs i)
      → 1 ≤ k
      → k < n
      → less_at less ys k (parent k) ≡ false
  heap_at xs ys n k h same a b =
      ap₂ (both less) (same k b) (same (parent k) (omega arith)) ∙ h k a b

  pushed-IsUp :
      (xs : List A) (x : A)
      → IsHeap less o (length xs) xs
      → IsUp less o (suc (length xs)) (push_item less xs x) (length xs)
  pushed-IsUp xs x h = record {
    edges = λ k a b ne.
        heap_at xs (push_item less xs x) (length xs) k h (get-push less xs x) a (ground arith);
    across = λ k a b one p. absurd (omega (arith, p, a, b));
    inside = omega arith;
    fits = omega (arith, length-append xs (x ∷ []));
  }

  -- Push keeps the order of a heap, and the heap holds the pushed item once more and every other one
  -- as often as before.
  pub heap_push-IsHeap :
      (xs : List A) (x : A)
      → IsHeap less o (length xs) xs
      → IsHeap less o (length (heap_push less xs x)) (heap_push less xs x)
        × ((a : A) → count a (heap_push less xs x) ≡ one x a + count a xs)
  unfolding heap_push
  heap_push-IsHeap xs x h =
      let ys = push_item less xs x in
      let n : length (up less (suc (length xs)) ys (length xs)) ≡ suc (length xs) =
        length-up less (suc (length xs)) ys (length xs)
        ∙ omega (arith, length-append xs (x ∷ [])) in
      (
        subst (λ m. IsHeap less o m (up less (suc (length xs)) ys (length xs))) (sym n)
            (up-IsHeap less o (suc (length xs)) (suc (length xs)) ys (length xs) (omega arith)
              (pushed-IsUp xs x h)),
        λ a. count-up less (suc (length xs)) ys (length xs) a ∙ count-push less xs x a,
      )

  -- No item of a heap is less than its root.
  pub root_least :
      (f n : ℕ) (xs : List A) (k : ℕ)
      → k < f
      → k < n
      → n ≤ length xs
      → IsHeap less o n xs
      → less_at less xs k 0 ≡ false
  root_least zero n xs k a b c h = absurd (omega (arith, a))
  root_least (suc f) n xs zero a b c h = not_self less o xs 0
  root_least (suc f) n xs (suc k) a b c h =
      at_chain less o xs (suc k) (parent (suc k)) 0 (omega arith) (h (suc k) (omega arith) b)
        (root_least f n xs (parent (suc k)) (omega arith) (omega arith) c h)
