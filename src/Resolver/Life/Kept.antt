-- ===== src/Resolver/Life/Kept.antt =====
-- What the listeners and the scheduler hold, over any sequence of events.
use vectory.Base.{
  ◌≡◌, ◌≢◌, refl, ap, ◌∙◌, subst, true, List, [], ◌∷◌, some, Bytes, bytes_key, nat_key, ℕ, Map,
  load, store, delete, Key, All, inl, inr, Bool-cases,
}
use vectory.Resolver.Life.{
  late, Resolver, Listening, nobody, register_listener, unregister_listener, Surroundings, start,
  close, Event, built, closed, rebalanced, due, happen, run, after,
}

module _ {K V : Type 0} ⦃e : Key K⦄ (P : K × V → Type 0) where
  pub store-All : (k : K) (v : V) (m : Map K V) → P (k, v) → All P m → All P (store k v m)
  unfolding store
  store-All k v [] p _ = (p, tt)
  store-All k v ((j, w) ∷ m) p (q, h) = elim (Bool-cases (e.same j k)) [
    | inl t ↦ rw t (p, h)
    | inr t ↦ rw t (q, store-All k v m p h)
  ]

  pub delete-All : (k : K) (m : Map K V) → All P m → All P (delete k m)
  unfolding delete
  delete-All k [] _ = tt
  delete-All k ((j, w) ∷ m) (q, h) = elim (Bool-cases (e.same j k)) [
    | inl t ↦ rw t (delete-All k m h)
    | inr t ↦ rw t (q, delete-All k m h)
  ]

  -- What holds at all other keys holds of what is left.
  pub delete-All_other :
      (k : K) (m : Map K V) → All (λ kv. (kv.0 ≢ k) → P kv) m → All P (delete k m)
  unfolding delete
  delete-All_other k [] _ = tt
  delete-All_other k ((j, w) ∷ m) (q, h) = elim (Bool-cases (e.same j k)) [
    | inl t ↦ rw t (delete-All_other k m h)
    | inr t ↦ rw t (
      q (λ (same : j ≡ k). let on : e.same j k ≡ true = (e.same_iff j k).1 same in absurd (cc)),
      delete-All_other k m h,
    )
  ]

  pub load-All : (k : K) (v : V) (m : Map K V) → All P m → load k m ≡ some v → (j : K) × P (j, v)
  unfolding load
  load-All k v [] _ q = absurd (cc)
  load-All k v ((j, w) ∷ m) (p, h) q = elim (Bool-cases (e.same j k)) [
    | inl t ↦
        let both : some w ≡ some v = rw t at q in
        let same : w ≡ v = cc in (j, subst (λ x. P (j, x)) same p)
    | inr t ↦ load-All k v m h (rw t at q)
  ]

-- Every resolver is under its own endpoint and its own entry.
abbrev pub Kept : Listening → Type 0
Kept l =
    All (λ (kr : Bytes × Resolver). kr.0 ≡ kr.1.target) l.listeners
    × All (λ (nr : ℕ × Resolver). nr.0 ≡ nr.1.entry) l.entries

happen-Kept : (w : Surroundings) (e : Event) (l : Listening) → Kept l → Kept (happen w e l).0
unfolding happen start close register_listener unregister_listener
happen-Kept w (built r) l (a, b) =
    (store-All _ r.target r l.listeners refl a, store-All _ r.entry r l.entries refl b)
happen-Kept w (closed r) l (a, b) =
    (delete-All _ r.target l.listeners a, delete-All _ r.entry l.entries b)
happen-Kept w rebalanced l h = h
happen-Kept w (due n) l h = h
happen-Kept w (late r) l h = h

run-Kept : (es : List (Surroundings × Event)) (l : Listening) → Kept l → Kept (run es l).0
unfolding run
run-Kept [] l h = h
run-Kept ((w, e) ∷ es) l h = run-Kept es (happen w e l).0 (happen-Kept w e l h)

pub after-Kept : (es : List (Surroundings × Event)) → Kept (after es)
after-Kept es = run-Kept es nobody (tt, tt)

-- A resolver that neither the manager nor the scheduler knows.
abbrev pub Gone : Resolver → Listening → Type 0
Gone r l =
    All (λ (kr : Bytes × Resolver). kr.1 ≢ r) l.listeners
    × All (λ (nr : ℕ × Resolver). nr.1 ≢ r) l.entries

pub close-Gone : (r : Resolver) (l : Listening) → Kept l → Gone r (close r l)
unfolding close unregister_listener
close-Gone r l (a, b) = (
  delete-All_other (λ (kr : Bytes × Resolver). kr.1 ≢ r) r.target l.listeners
      (under r l.listeners a),
  delete-All_other (λ (nr : ℕ × Resolver). nr.1 ≢ r) r.entry l.entries (at r l.entries b),
)
  where
    under :
        (r : Resolver) (m : Map Bytes Resolver)
        → All (λ (kr : Bytes × Resolver). kr.0 ≡ kr.1.target) m
        → All (λ (kr : Bytes × Resolver). (kr.0 ≢ r.target) → kr.1 ≢ r) m
    under r [] _ = tt
    under r ((k, s) ∷ m) (q, h) =
        (λ n (e : s ≡ r). n (q ∙ ap (λ (t : Resolver). t.target) e), under r m h)

    at :
        (r : Resolver) (m : Map ℕ Resolver)
        → All (λ (nr : ℕ × Resolver). nr.0 ≡ nr.1.entry) m
        → All (λ (nr : ℕ × Resolver). (nr.0 ≢ r.entry) → nr.1 ≢ r) m
    at r [] _ = tt
    at r ((k, s) ∷ m) (q, h) = (λ n (e : s ≡ r). n (q ∙ ap (λ (t : Resolver). t.entry) e), at r m h)
