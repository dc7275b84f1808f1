-- ===== src/Tests/Heaps.antt =====
-- A queue that is kept as a list, out of which an item with the least score is taken.
use vectory.Base.{
  ℕ, ◌+◌, ◌≤◌, ◌<◌, ◌≡◌, refl, ap, subst, true, List, [], ◌∷◌, Option, none, some, nat_key, Key,
  ltb, leb, arith, Bool-cases, inl, inr, if◌then◌else◌,
}
use vectory.Merge.{one, Heap}

module _ {A : Type 0} ⦃e : Key A⦄ (score : A → ℕ) where
  abbrev pub occurs : List A → A → ℕ
  occurs [] a = 0
  occurs (x ∷ xs) a = one x a + occurs xs a

  -- Taking out an item with the least score.
  abbrev pub least : A → List A → A × List A
  least x [] = (x, [])
  least x (y ∷ ys) =
      let keep = least x ys in
      let swap = least y ys in
      if leb (score x) (score y) then (keep.0, y ∷ keep.1) else (swap.0, x ∷ swap.1)

  occurs-least :
      (x : A) (ys : List A) (a : A)
      → one x a + occurs ys a ≡ one (least x ys).0 a + occurs (least x ys).1 a
  occurs-least x [] a = refl
  occurs-least x (y ∷ ys) a = elim (Bool-cases (leb (score x) (score y))) [
    | inl t ↦ rw t (omega (arith, occurs-least x ys a))
    | inr t ↦ rw t (omega (arith, occurs-least y ys a))
  ]

  least-le : (x : A) (ys : List A) → score (least x ys).0 ≤ score x
  least-le x [] = omega arith
  least-le x (y ∷ ys) = elim (Bool-cases (leb (score x) (score y))) [
    | inl t ↦ rw t (least-le x ys)
    | inr t ↦ rw t (ground (arith, least-le y ys))
  ]

  one_less : (x a b : A) → score a < score b → score b ≤ score x → one x a ≡ 0
  one_less x a b p q = elim (Bool-cases (e.same x a)) [
    | inl t ↦ absurd (omega (arith, p, q, ap score ((e.same_iff x a).0 t)))
    | inr t ↦ rw t refl
  ]

  occurs-less :
      (x : A) (ys : List A) (a : A) → score a < score (least x ys).0 → one x a + occurs ys a ≡ 0
  occurs-less x [] a p = omega (arith, one_less x a x p (omega arith))
  occurs-less x (y ∷ ys) a p = elim (Bool-cases (leb (score x) (score y))) [
    | inl t ↦
        let k = rw t at p in
        omega (
          arith,
          occurs-less x ys a k,
          one_less y a (least x ys).0 k (ground (arith, least-le x ys)),
        )
    | inr t ↦
        let k = rw t at p in
        omega (
          arith,
          occurs-less y ys a k,
          one_less x a (least y ys).0 k (ground (arith, least-le y ys)),
        )
  ]

  abbrev pub take_out : List A → Option (A × List A)
  take_out [] = none
  take_out (x ∷ xs) = some (least x xs)

  pub taken_none : (q : List A) (a : A) → take_out q ≡ none → occurs q a ≡ 0
  taken_none [] a p = refl
  taken_none (x ∷ xs) a p = absurd (cc)

  pub occurs-take_out :
      (q r : List A) (x a : A) → take_out q ≡ some (x, r) → occurs q a ≡ one x a + occurs r a
  occurs-take_out [] r x a p = absurd (cc)
  occurs-take_out (y ∷ ys) r x a p =
      let same : least y ys ≡ (x, r) = cc in
      subst (λ (o : A × List A). one y a + occurs ys a ≡ one o.0 a + occurs o.1 a) same
        (occurs-least y ys a)

  pub taken_least :
      (q r : List A) (x a : A)
      → take_out q ≡ some (x, r)
      → ltb (score a) (score x) ≡ true
      → occurs q a ≡ 0
  taken_least [] r x a p l = refl
  taken_least (y ∷ ys) r x a p l =
      let same : least y ys ≡ (x, r) = cc in
      let first : (least y ys).0 ≡ x = ap (λ (o : A × List A). o.0) same in
      occurs-less y ys a (ground (arith, ap score first))

  abbrev pub heap_by : Heap A (λ a b. ltb (score a) (score b))
  heap_by = record {
    Queue = List A;
    init = [];
    push = λ q x. x ∷ q;
    pop = take_out;
    holds = occurs;
    holds-init = λ a. refl;
    holds-push = λ q x a. refl;
    pop-none = taken_none;
    holds-pop = occurs-take_out;
    pop-least = taken_least;
  }
