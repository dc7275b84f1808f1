-- ===== src/Tests/Merging.antt =====
-- Merging with a queue that is kept as a list.
use vectory.Base.{
  ℕ, ◌+◌, ◌≡◌, refl, List, [], ◌∷◌, nat_key, ltb, pos, arith, zero, suc, ◌≤◌, ◌<◌, some, false,
}
use vectory.Tests.Heaps.{heap_by}
use vectory.Merge.{Heap, merge_sorted_lists, one}
use vectory.Merge.Items.{count, count_all, count-merge_sorted_lists}
use vectory.Merge.Order.{IsMerged}
use vectory.Merge.PriorityQueue.{heap_push, heap_pop, up, down, less_at, parent}
use vectory.Merge.PriorityQueue.Sifting.{IsWeakOrder}
use vectory.Merge.PriorityQueue.Popping.{heap_pop-least}
use vectory.Merge.Queued.{priority_queue, merge_sorted_lists-queued}

abbrev list_heap : Heap ℕ ltb
list_heap = heap_by (λ n. n)

abbrev three_lists : List (List ℕ)
three_lists = (1 ∷ 4 ∷ 7 ∷ []) ∷ (2 ∷ 5 ∷ []) ∷ (4 ∷ []) ∷ []

merges :
    merge_sorted_lists list_heap three_lists (pos 4)
    ≡ (1 ∷ 2 ∷ 4 ∷ 4 ∷ [], (7 ∷ []) ∷ (5 ∷ []) ∷ [] ∷ [])
unfolding merge_sorted_lists
merges = refl

count-merge_sorted_lists_example :
    count 4 (merge_sorted_lists list_heap three_lists (pos 4)).0
      + count_all 4 (merge_sorted_lists list_heap three_lists (pos 4)).1
    ≡ count_all 4 three_lists
count-merge_sorted_lists_example = count-merge_sorted_lists list_heap three_lists (pos 4) 4

ltb-IsWeakOrder : IsWeakOrder ltb
ltb-IsWeakOrder = record { chain = λ a b c p q. ground arith; one_way = λ a b p. ground arith }

merge_sorted_lists-queued_example :
    IsMerged ltb (merge_sorted_lists (priority_queue ltb ltb-IsWeakOrder) three_lists (pos 4))
merge_sorted_lists-queued_example =
    merge_sorted_lists-queued ltb ltb-IsWeakOrder three_lists (pos 4)
      (((refl, (refl, tt)), ((refl, tt), (tt, tt))), (((refl, tt), (tt, tt)), ((tt, tt), tt)))

-- A queue of three items, pushed one after another.
abbrev two : ℕ
two = 2

abbrev of_three : List ℕ
of_three = 2 ∷ 7 ∷ 5 ∷ []

pushed : heap_push ltb (heap_push ltb (heap_push ltb [] 5) 7) 2 ≡ of_three
unfolding heap_push up
pushed = refl

popped : heap_pop ltb of_three ≡ some (2, 5 ∷ 7 ∷ [])
unfolding heap_pop down
popped = refl

two_below : (k : ℕ) → 1 ≤ k → k < 3 → less_at ltb of_three k (parent k) ≡ false
two_below zero a b = absurd (omega (arith, a))
two_below (suc zero) a b = refl
two_below (suc (suc zero)) a b = refl
two_below (suc (suc (suc k))) a b = absurd (omega (arith, b))

heap_pop-least_example :
    (ws : List ℕ) × (heap_pop ltb of_three ≡ some (2, ws))
    × (count 7 of_three ≡ one two 7 + count 7 ws)
    × (less_at ltb of_three 2 0 ≡ false)
heap_pop-least_example = heap_pop-least ltb ltb-IsWeakOrder 2 (7 ∷ 5 ∷ []) 7 2 two_below
