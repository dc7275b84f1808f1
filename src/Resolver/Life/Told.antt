-- ===== src/Resolver/Life/Told.antt =====
-- Which resolvers are told something, over any sequence of events.
use vectory.Base.{
  ◌≡◌, ◌≢◌, refl, ap, ◌∙◌, List, [], ◌∷◌, Option, some, Bytes, bytes_key, nat_key, Map, load,
  delete, All, In, inl, inr, arith, Bool-cases, load-store_self, load-store, load-delete,
  bytes_same_iff, bytes_same,
}
use vectory.Resolver.{Report, resolve_now}
use vectory.Resolver.Life.{
  late, Resolver, Listening, register_listener, unregister_listener, Surroundings, Answer, update,
  notify_listeners, start, close, Event, built, closed, rebalanced, due, happen, run, after,
}
use vectory.Resolver.Life.Kept.{delete-All_other, after-Kept}

abbrev Quiet : Resolver → List Answer → Type 0
Quiet r given = (x : Option Report) → ¬ In (r, x) given

asks : (w : Surroundings) (s r : Resolver) (x : Option Report) → update w s ≡ (r, x) → s ≡ r
unfolding update
asks w s r x q = ap (λ (a : Answer). a.0) q

notify-Quiet :
    (w : Surroundings) (r : Resolver) (m : Map Bytes Resolver)
    → All (λ (kr : Bytes × Resolver). kr.1 ≢ r) m
    → Quiet r (notify_listeners w m)
unfolding notify_listeners
notify-Quiet w r [] h x i = elim i [ ]
notify-Quiet w r ((k, s) ∷ m) (n, h) x (inl q) = n (asks w s r x q)
notify-Quiet w r ((k, s) ∷ m) (n, h) x (inr i) = notify-Quiet w r m h x i

-- Neither builds nor closes a resolver of the endpoint.
abbrev pub Spares : Bytes → Event → Type 0
Spares target (built s) = s.target ≢ target
Spares target (closed s) = s.target ≢ target
Spares target rebalanced = Unit
Spares target (due n) = Unit
Spares target (late s) = Unit

happen-spared :
    (w : Surroundings) (e : Event) (target : Bytes) (l : Listening)
    → Spares target e
    → load target (happen w e l).0.listeners ≡ load target l.listeners
unfolding happen start close register_listener unregister_listener
happen-spared w (built s) target l n =
    ground (arith, load-store s.target target s l.listeners, bytes_same_iff s.target target)
happen-spared w (closed s) target l n =
    ground (arith, load-delete s.target target l.listeners, bytes_same_iff s.target target)
happen-spared w rebalanced target l n = refl
happen-spared w (due k) target l n = refl
happen-spared w (late s) target l n = refl

run-spared :
    (es : List (Surroundings × Event)) (target : Bytes) (l : Listening)
    → All (λ (we : Surroundings × Event). Spares target we.1) es
    → load target (run es l).0.listeners ≡ load target l.listeners
unfolding run
run-spared [] target l _ = refl
run-spared ((w, e) ∷ es) target l (n, h) =
    run-spared es target (happen w e l).0 h ∙ happen-spared w e target l n

notify-In :
    (w : Surroundings) (key : Bytes) (r : Resolver) (m : Map Bytes Resolver)
    → load key m ≡ some r
    → In (update w r) (notify_listeners w m)
unfolding notify_listeners load
notify-In w key r [] q = absurd (cc)
notify-In w key r ((k, s) ∷ m) q = elim (Bool-cases (bytes_same k key)) [
  | inl t ↦
      let both : some s ≡ some r = rw t at q in let same : s ≡ r = cc in inl (ap (update w) same)
  | inr t ↦ inr (notify-In w key r m (rw t at q))
]

-- A resolver that was built, and since when no resolver of its endpoint was built or closed, is told
-- after a rebalance what the manager then gives for its endpoint.
pub rebalanced-tells :
    (es : List (Surroundings × Event)) (l : Listening) (u w : Surroundings) (r : Resolver)
    → All (λ (we : Surroundings × Event). Spares r.target we.1) es
    → In
        (r, resolve_now w.floats w.route w.manager r.target)
        (happen w rebalanced (run es (happen u (built r) l).0).0).1
unfolding happen start register_listener update
rebalanced-tells es l u w r h =
    let begun = (happen u (built r) l).0 in
    notify-In w r.target r (run es begun).0.listeners
      (run-spared es r.target begun h ∙ load-store_self r.target r l.listeners)

-- When one of several resolvers of an endpoint is closed, the others too are told nothing after a
-- rebalance.
pub closed-silences :
    (es : List (Surroundings × Event)) (u w : Surroundings) (r s : Resolver) (x : Option Report)
    → s.target ≡ r.target
    → ¬ In (s, x) (happen w rebalanced (happen u (closed r) (after es)).0).1
unfolding happen close unregister_listener
closed-silences es u w r s x q =
    notify-Quiet w s (delete r.target (after es).listeners)
      (delete-All_other (λ (kr : Bytes × Resolver). kr.1 ≢ s) r.target (after es).listeners
        (others (after es).listeners (after-Kept es).0))
      x
  where
    others :
        (m : Map Bytes Resolver)
        → All (λ (kr : Bytes × Resolver). kr.0 ≡ kr.1.target) m
        → All (λ (kr : Bytes × Resolver). (kr.0 ≢ r.target) → kr.1 ≢ s) m
    others [] _ = tt
    others ((k, t) ∷ m) (p, h) =
        (λ n (e : t ≡ s). n (p ∙ ap (λ (a : Resolver). a.target) e ∙ q), others m h)
