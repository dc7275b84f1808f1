-- ===== src/Merge/PriorityQueue.antt =====
-- PriorityQueue of internal/utils/utils.go, under Init, Push and Pop of the package container/heap of
-- Go's standard library, which call its methods.
pub mod Swapping
pub mod Sifting
pub mod Sinking
pub mod Holding
pub mod Popping
use vectory.Base.{
  ℕ, zero, suc, ◌+◌, ◌-◌, ◌*◌, ◌/◌, Bool, true, false, not, List, [], ◌∷◌, ◌++◌, Option, none, some,
  length, get_elem?, set, ◌==◌, ltb, leb, ◌&&◌, ◌||◌, if◌then◌else◌,
}

abbrev pub parent : ℕ → ℕ
parent j = (j - 1) / 2

module _ {A : Type 0} (less : A → A → Bool) where
  abbrev both : Option A → Option A → Bool
  both (some a) (some b) = less a b
  both _ _ = false

  -- `pq.Less(i, j)`; an index out of range would be a panic, and none is used.
  abbrev pub less_at : List A → ℕ → ℕ → Bool
  less_at xs i j = both (get_elem? xs i) (get_elem? xs j)

  abbrev exchange : List A → ℕ → ℕ → Option A → Option A → List A
  exchange xs i j (some a) (some b) = set (set xs i b) j a
  exchange xs i j _ _ = xs

  -- `pq.Swap(i, j)`
  abbrev pub swap : List A → ℕ → ℕ → List A
  swap xs i j = exchange xs i j (get_elem? xs i) (get_elem? xs j)

  -- `pq.Push(x)` and `pq.Pop()`; the latter panics on an empty queue.
  abbrev pub push_item : List A → A → List A
  push_item xs x = xs ++ (x ∷ [])

  abbrev pub pop_item : List A → Option (A × List A)
  pop_item [] = none
  pop_item (x ∷ xs) = elim (pop_item xs) [ none ↦ some (x, []) | some (y, ys) ↦ some (y, x ∷ ys) ]

  -- `up`: the loop goes to a smaller index each time, so one more than the index is enough fuel.
  unfoldable pub up : ℕ → List A → ℕ → List A
  up zero xs j = xs
  up (suc k) xs j =
      let rest = up k (swap xs (parent j) j) (parent j) in
      if (parent j == j) || not (less_at xs j (parent j)) then xs else rest

  -- The lesser of the two children.
  abbrev pub child : List A → ℕ → ℕ → ℕ
  child xs i n =
      if ltb (2 * i + 2) n && less_at xs (2 * i + 2) (2 * i + 1) then 2 * i + 2 else 2 * i + 1

  -- `down` in the first `n` items: the index grows each time, so `n` is enough fuel.
  unfoldable pub down : ℕ → List A → ℕ → ℕ → List A
  down zero xs i n = xs
  down (suc k) xs i n =
      let j = child xs i n in
      let rest = down k (swap xs i j) j n in
      if leb n (2 * i + 1) then xs else if not (less_at xs j i) then xs else rest

  -- `heap.Push`
  unfoldable pub heap_push : List A → A → List A
  heap_push xs x = up (suc (length xs)) (push_item xs x) (length xs)

  -- `heap.Pop`; on an empty queue it panics, and `MergeSortedLists` does not call it.
  unfoldable pub heap_pop : List A → Option (A × List A)
  heap_pop [] = none
  heap_pop (x ∷ xs) = pop_item (down (length xs) (swap (x ∷ xs) 0 (length xs)) 0 (length xs))
