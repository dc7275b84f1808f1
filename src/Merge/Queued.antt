-- ===== src/Merge/Queued.antt =====
-- `MergeSortedLists` with its priority queue under container/heap.
use vectory.Base.{
  ◌+◌, ◌≡◌, refl, sym, ap, ◌∙◌, subst, true, List, [], ◌∷◌, Option, none, some, ℤ, Key, length, All,
  arith, Bool,
}
use vectory.Merge.{one, Heap, merge_sorted_lists}
use vectory.Merge.Items.{count}
use vectory.Merge.Order.{IsMerged, Sorted, merge_sorted_lists-Sorted}
use vectory.Merge.PriorityQueue.{heap_push, heap_pop}
use vectory.Merge.PriorityQueue.Sifting.{IsWeakOrder, IsHeap}
use vectory.Merge.PriorityQueue.Holding.{heap_push-IsHeap}
use vectory.Merge.PriorityQueue.Popping.{Queue, pop_queue, keep_order, heap_pop-Pops, least_counts}

pub nothing_counted : {A : Type 0} ⦃e : Key A⦄ (a : A) → count a [] ≡ 0
unfolding count
nothing_counted a = refl

module _ {A : Type 0} ⦃e : Key A⦄ (less : A → A → Bool) (o : IsWeakOrder less) where
  abbrev items_left : Option (A × Queue less o) → Option (A × List A)
  items_left none = none
  items_left (some (x, q)) = some (x, q.0)

  -- On the items, Pop of the queue is `heap_pop`.
  items_left-keep_order :
      (q : Queue less o) (p : Option (A × List A)) (h : heap_pop less q.0 ≡ p)
      → items_left (keep_order less o q p h) ≡ p
  unfolding keep_order
  items_left-keep_order q none h = refl
  items_left-keep_order q (some (x, ws)) h = refl

  pub items_left-pop_queue :
      (q : Queue less o) → items_left (pop_queue less o q) ≡ heap_pop less q.0
  unfolding pop_queue
  items_left-pop_queue q = items_left-keep_order q (heap_pop less q.0) refl

  pub pop_empty :
      (xs : List A) (a : A)
      → heap_pop less xs ≡ none
      → IsHeap less o (length xs) xs
      → count a xs ≡ 0
  unfolding count
  pop_empty [] a q h = refl
  pop_empty (x ∷ xs) a q h = let (ws, run, _, _, _) = heap_pop-Pops less o x xs h in absurd (cc)

  -- What Pop of a heap takes out and leaves.
  abbrev pub Takes : List A → Option (A × List A) → Type 0
  Takes xs none = Unit
  Takes xs (some (x, ws)) =
      ((a : A) → count a xs ≡ one x a + count a ws) × ((a : A) → less a x ≡ true → count a xs ≡ 0)

  heap_pop-Takes : (xs : List A) → IsHeap less o (length xs) xs → Takes xs (heap_pop less xs)
  unfolding heap_pop
  heap_pop-Takes [] h = tt
  heap_pop-Takes (x ∷ xs) h =
      let (ws, run, _, counts, _) = heap_pop-Pops less o x xs h in
      subst (Takes (x ∷ xs)) (sym run) (counts, λ a l. least_counts less o x xs a h l)

  pub popped :
      (q r : Queue less o) (x : A) → pop_queue less o q ≡ some (x, r) → Takes q.0 (some (x, r.0))
  popped q r x p =
      subst (Takes q.0) (sym (items_left-pop_queue q) ∙ ap items_left p) (heap_pop-Takes q.0 q.1)

  pub no_items : IsHeap less o 0 []
  no_items k a b = absurd (omega (arith, b))

  -- PriorityQueue under Init, Push and Pop of container/heap.
  abbrev pub priority_queue : Heap A less
  priority_queue = record {
    Queue = Queue less o;
    init = ([], no_items);
    push = λ q x. (heap_push less q.0 x, (heap_push-IsHeap less o q.0 x q.1).0);
    pop = pop_queue less o;
    holds = λ q a. count a q.0;
    holds-init = λ a. nothing_counted a;
    holds-push = λ q x a. (heap_push-IsHeap less o q.0 x q.1).1 a;
    pop-none = λ q a p. pop_empty q.0 a (sym (items_left-pop_queue q) ∙ ap items_left p) q.1;
    holds-pop = λ q r x a p. (popped q r x p).0 a;
    pop-least = λ q r x a p l. (popped q r x p).1 a l;
  }

  -- With a strict weak order, merging by the program's own priority queue returns sorted lists in
  -- order, and leaves no item in the lists that is less than one of the result.
  pub merge_sorted_lists-queued :
      (ls : List (List A)) (cap : ℤ)
      → All (Sorted less) ls
      → IsMerged less (merge_sorted_lists priority_queue ls cap)
  merge_sorted_lists-queued ls cap s =
      merge_sorted_lists-Sorted less priority_queue ls cap o.chain s
