-- ===== src/Merge.antt =====
-- `MergeSortedLists` of internal/utils/utils.go. The queue is a PriorityQueue under the package
-- container/heap, which is an argument.
pub mod Items
pub mod Order
pub mod PriorityQueue
pub mod Queued
use vectory.Base.{
  ℕ, zero, suc, ◌+◌, ◌≡◌, Bool, true, false, List, [], ◌∷◌, Option, none, some, Key, ℤ, pos_part,
  if◌then◌else◌,
}

-- How often `x` counts as `a`.
abbrev pub one : {A : Type 0} ⦃e : Key A⦄ → A → A → ℕ
one ⦃e⦄ x a = if e.same x a then 1 else 0

-- What the documentation of container/heap says of Init on an empty queue, Push and Pop: `holds q a`
-- is how many items of `q` are `a`, and Pop takes out an item such that no other is less.
pub record Heap (A : Type 0) ⦃e : Key A⦄ (less : A → A → Bool) : Type 1 where
  pub Queue : Type 0
  pub init : Queue
  pub push : Queue → A → Queue
  pub pop : Queue → Option (A × Queue)
  pub holds : Queue → A → ℕ
  pub holds-init : (a : A) → holds init a ≡ 0
  pub holds-push : (q : Queue) (x a : A) → holds (push q x) a ≡ one x a + holds q a
  pub pop-none : (q : Queue) (a : A) → pop q ≡ none → holds q a ≡ 0
  pub holds-pop : (q r : Queue) (x a : A) → pop q ≡ some (x, r) → holds q a ≡ one x a + holds r a
  pub pop-least : (q r : Queue) (x a : A) → pop q ≡ some (x, r) → less a x ≡ true → holds q a ≡ 0

module _ {A : Type 0} ⦃e : Key A⦄ {less : A → A → Bool} (h : Heap A less) where
  open h use {Queue}

  push_head : Queue → List A → Queue
  push_head q [] = q
  push_head q (x ∷ xs) = h.push q x

  -- The first element of each list is pushed.
  pub push_heads : Queue → List (List A) → Queue
  unfolding push_head
  push_heads q [] = q
  push_heads q (l ∷ ls) = push_heads (push_head q l) ls

  -- The first list that starts with the item loses it, and its next element is pushed.
  pub advance : A → Queue → List (List A) → Queue × List (List A)
  unfolding push_head
  advance x q [] = (q, [])
  advance x q ([] ∷ ls) = let rest = advance x q ls in (rest.0, [] ∷ rest.1)
  advance x q ((y ∷ ys) ∷ ls) =
      let rest = advance x q ls in
      if e.same x y then (push_head q ys, ys ∷ ls) else (rest.0, (y ∷ ys) ∷ rest.1)

  -- The loop, with the number of items that are still wanted: the result, and `lists`, which the
  -- function changes in place.
  pub take_least : ℕ → Queue → List (List A) → List A × List (List A)
  unfolding advance
  take_least zero q ls = ([], ls)
  take_least (suc n) q ls = elim (h.pop q) [
    | none ↦ ([], ls)
    | some (x, r) ↦
        let next = advance x r ls in let rest = take_least n next.0 next.1 in (x ∷ rest.0, rest.1)
  ]

  -- `MergeSortedLists`: the result, and `lists` afterwards.
  unfoldable pub merge_sorted_lists : List (List A) → ℤ → List A × List (List A)
  unfolding push_heads take_least
  merge_sorted_lists ls cap = take_least (pos_part cap) (push_heads h.init ls) ls
