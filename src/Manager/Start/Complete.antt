-- ===== src/Manager/Start/Complete.antt =====
-- What `InitManager` promises by the error that it returns.
use vectory.Base.{
  ℕ, ◌≤◌, ◌≡◌, inl, inr, sym, ap, ◌∙◌, subst, Bool, true, List, [], ◌∷◌, Option, some, Bytes,
  bytes_key, In, All, arith, ◌<◌, load, ◌⊎◌, refl, none, false,
}
use vectory.Errors.{ok, partly_success, no_success, Err, Result, err}
use vectory.Shard.{Shard, IndexManifest, shard_key, shard_as_key, generate_shards}
use vectory.Manager.{
  IndexManager, Tools, needs_in, load_index, Index, Mode, unique_shard_key, Status, Native,
}
use vectory.Manager.Start.{
  Sums, add_counts, load_manifests, outcome, start_sums, init_loaded, init_collected, init_manager,
  hook_panics, fresh, Sources, collect,
}
use vectory.Manager.Start.Loads.{
  Loads, load_index-Loads, load_index-ok, load_index-listed, load_index-returned,
}
use vectory.Manager.Start.Loading.{There, Grows, Grows-refl, Grows-trans, Grows-There}
use vectory.Manager.Rebalance.Steps.{bind_some}
use vectory.Index.Handles.{HasSource}

-- The counters of a start: nothing is pending if all shards that were tried were loaded, and no
-- manifest fails.
record Adds (p : Sums) : Type 0 where
  fits : p.success ≤ p.total
  clean : p.success ≡ p.total → p.manager.pending_shards ≡ []
  marked : p.success < p.total → (s : Shard) × (load s p.manager.pending_shards ≡ some true)
  no_failed : p.failed ≡ 0

-- The product of the manifest's counts fits, and it has a source if its type of index reads one.
abbrev pub IsLoadable : IndexManifest → Type 0
IsLoadable m = ((ss : List Shard) × (generate_shards m ≡ some ss)) × HasSource m

less_or_eq : (a b : ℕ) → a ≤ b → (a < b) ⊎ (a ≡ b)
less_or_eq a b h = grind arith

module _ (t : Tools) (owns : Option (Bytes → Bool)) (need : Bytes → Bool) where
  one_Adds :
      (m : IndexManifest) (ss : List Shard) (p : Sums) (j : IndexManager) (total success : ℕ)
      → Loads need m ss p.manager j total success
      → Adds p
      → Adds (add_counts p (j, ok (total, success)))
  unfolding add_counts
  one_Adds m ss p j total success l a = record {
    fits = let x = l.fits in let y = a.fits in omega arith;
    clean = λ q.
        let x = l.fits in let y = a.fits in l.clean (omega (arith, q)) ∙ a.clean (omega (arith, q));
    marked = λ q. elim (less_or_eq success total l.fits) [
      | inl less ↦ l.marked less
      | inr same ↦ let (s, e) = a.marked (omega (arith, q, same)) in (s, l.grown.pending s e)
    ];
    no_failed = a.no_failed;
  }

  -- One manifest of the loop.
  one_manifest :
      (m : IndexManifest) (ss : List Shard) (p : Sums) (x : IndexManager × Result (ℕ × ℕ))
      → needs_in p.manager.mode owns ≡ some need
      → generate_shards m ≡ some ss
      → load_index t owns m p.manager ≡ some x
      → (j : IndexManager) × (total : ℕ) × (success : ℕ) × (load_index t owns m p.manager
          ≡ some (j, ok (total, success)))
        × Loads need m ss p.manager j total success
  one_manifest m ss p x n g run =
      let (_, _, e) = load_index-returned t owns need m ss p.manager x n g run in
      (_, _, _, e, load_index-Loads t owns need m ss p.manager _ _ _ n g e)

  manifests :
      (ms : List IndexManifest) (p q : Sums)
      → needs_in p.manager.mode owns ≡ some need
      → load_manifests t owns ms p ≡ some q
      → Adds p
      → Adds q × Grows p.manager q.manager
  unfolding load_manifests add_counts
  manifests [] p q n e a =
      let same : p ≡ q = cc in
      subst (λ (x : Sums). Adds x × Grows p.manager x.manager) same (a, Grows-refl p.manager)
  manifests (m ∷ ms) p q n e a =
      let (r', r'', _) = bind_some (load_index t owns m p.manager) _ q e in
      let (ss, g) = load_index-listed t owns need m p.manager r' n r'' in
      let (j, total, success, r, l) = one_manifest m ss p r' n g r'' in
      let next = add_counts p (j, ok (total, success)) in
      let rest : load_manifests t owns ms next ≡ some q = rw r at e in
      let (b, grown) =
        manifests ms next q (ap (λ y. needs_in y owns) l.grown.same_mode ∙ n) rest
          (one_Adds m ss p j total success l a) in
      (b, Grows-trans p.manager j q.manager l.grown grown)

  manifests_There :
      (ms : List IndexManifest) (m : IndexManifest) (ss : List Shard) (s : Shard) (p q : Sums)
      → needs_in p.manager.mode owns ≡ some need
      → load_manifests t owns ms p ≡ some q
      → Adds p
      → In m ms
      → generate_shards m ≡ some ss
      → In s ss
      → need (shard_key s) ≡ true
      → There s q.manager
  unfolding load_manifests add_counts
  manifests_There [] m ss s p q n e a w g u k = elim w [ ]
  manifests_There (x ∷ ms) m ss s p q n e a w g u k =
      let (r', r'', _) = bind_some (load_index t owns x p.manager) _ q e in
      let (ss', g') = load_index-listed t owns need x p.manager r' n r'' in
      let (j, total, success, r, l) = one_manifest x ss' p r' n g' r'' in
      let next = add_counts p (j, ok (total, success)) in
      let rest : load_manifests t owns ms next ≡ some q = rw r at e in
      let n' = ap (λ y. needs_in y owns) l.grown.same_mode ∙ n in
      let a' = one_Adds x ss' p j total success l a in
      elim w [
        | inl same ↦
            let listed : some ss ≡ some ss' = sym g ∙ ap generate_shards (sym same) ∙ g' in
            let lists : ss ≡ ss' = cc in
            Grows-There s j q.manager (manifests ms next q n' rest a').1
              (l.there s (subst (In s) lists u) k)
        | inr v ↦ manifests_There ms m ss s next q n' rest a' v g u k
      ]

  -- No panic if every manifest can be loaded.
  load_manifests-some :
      (ms : List IndexManifest) (p : Sums)
      → needs_in p.manager.mode owns ≡ some need
      → All IsLoadable ms
      → (q : Sums) × (load_manifests t owns ms p ≡ some q)
  unfolding load_manifests add_counts
  load_manifests-some [] p n h = (p, refl)
  load_manifests-some (m ∷ ms) p n (((ss, g), source), h) =
      let (_, ok_run) = load_index-ok t owns need m ss p.manager n g source in
      let (j, total, success, r, l) = one_manifest m ss p _ n g ok_run in
      let (q, e) =
        load_manifests-some ms (add_counts p (j, ok (total, success)))
          (ap (λ y. needs_in y owns) l.grown.same_mode ∙ n) h in
      (q, rw r e)

-- The error that `InitManager` returns after loading, against the shards that are pending.
abbrev pub Tells : IndexManager → Option Err → Type 0
Tells j e =
    ((e ≡ none) × (j.pending_shards ≡ []))
    ⊎ (((e ≡ some partly_success) ⊎ (e ≡ some no_success))
        × ((s : Shard) × (load s j.pending_shards ≡ some true)))

outcome-Tells : (p : Sums) → Adds p → Tells p.manager (outcome p)
unfolding outcome
outcome-Tells p a = elim (less_or_eq p.success p.total a.fits) [
  | inl less ↦ elim (less_or_eq 0 p.success (omega arith)) [
    | inl some_loaded ↦ inr (inl (ground (arith, less, some_loaded)), a.marked less)
    | inr none_loaded ↦ inr (inr (ground (arith, less, none_loaded)), a.marked less)
  ]
  | inr same ↦ let z = a.no_failed in inl (ground (arith, same, z), a.clean same)
]

nothing_added : (mode : Mode) (st : Status) (n : Native) → Adds (start_sums (fresh mode st n))
unfolding fresh
nothing_added mode st n = record {
  fits = omega arith;
  clean = λ q. refl;
  marked = λ q. absurd (omega (arith, q));
  no_failed = refl;
}

hook_ok :
    (mode : Mode) (owns : Option (Bytes → Bool)) (need : Bytes → Bool)
    (r : Result (List IndexManifest))
    → needs_in mode owns ≡ some need
    → hook_panics mode owns r ≡ false
unfolding hook_panics
hook_ok Mode.single owns need r n = refl
hook_ok Mode.cluster none need r n = absurd (cc)
hook_ok Mode.cluster (some f) need (ok ms) n = refl
hook_ok Mode.cluster (some f) need (err e) n = refl

-- A start whose manifests could be read is the loop over them.
init_manager-loop :
    (t : Tools) (c : Sources) (mode : Mode) (st : Status) (n : Native) (need : Bytes → Bool)
    (ms : List IndexManifest)
    → needs_in mode c.owns ≡ some need
    → collect c mode ≡ ok ms
    → init_manager t c mode st n
      ≡ init_loaded (load_manifests t c.owns (c.order ms) (start_sums (fresh mode st n)))
unfolding init_manager init_collected
init_manager-loop t c mode st n need ms w g = rw (hook_ok mode c.owns need _ w, g) refl

-- If the cluster manager is there in cluster mode, the manifests could be read, their products fit
-- int32 and those of FAISS have a source, `InitManager` returns, and its error tells what is pending: without an error nothing is,
-- and with one, which is then that the load was partly or not at all a success, some shard is.
pub init_manager-Tells :
    (t : Tools) (c : Sources) (mode : Mode) (st : Status) (n : Native) (need : Bytes → Bool)
    (ms : List IndexManifest)
    → needs_in mode c.owns ≡ some need
    → collect c mode ≡ ok ms
    → All IsLoadable (c.order ms)
    → (j : IndexManager) × (e : Option Err) × (init_manager t c mode st n ≡ some (j, e)) × Tells j e
unfolding init_loaded fresh
init_manager-Tells t c mode st n need ms w g h =
    let start = start_sums (fresh mode st n) in
    let (q, run) = load_manifests-some t c.owns need (c.order ms) start w h in
    let (a, _) = manifests t c.owns need (c.order ms) start q w run (nothing_added mode st n) in
    (
      q.manager,
      outcome q,
      init_manager-loop t c mode st n need ms w g ∙ rw run refl,
      outcome-Tells q a,
    )

loaded_run :
    (o : Option Sums) (j : IndexManager)
    → init_loaded o ≡ some (j, none)
    → (q : Sums) × (o ≡ some q) × (q.manager ≡ j) × (outcome q ≡ none)
unfolding init_loaded
loaded_run none j e = absurd (cc)
loaded_run (some q) j e = (q, refl, cc, cc)

found_if_clean :
    (s : Shard) (j : IndexManager)
    → Tells j none
    → There s j
    → (x : Index) × (load (unique_shard_key s) j.engine_store ≡ some x)
unfolding load
found_if_clean s j d (inl x) = x
found_if_clean s j (inl (_, clean)) (inr p) = let q = rw clean at p in absurd (cc)
found_if_clean s j (inr (inl z, _)) (inr p) = absurd (cc)
found_if_clean s j (inr (inr z, _)) (inr p) = absurd (cc)

-- If `InitManager` returns without an error, every shard that this node needs, of every manifest that
-- could be read, is loaded: in single mode all of them, in cluster mode those that the hash ring
-- gives to this node. The order in which the manifests are loaded does not matter.
pub init_manager-Complete :
    (t : Tools) (c : Sources) (mode : Mode) (st : Status) (n : Native) (need : Bytes → Bool)
    (ms : List IndexManifest) (j : IndexManager) (m : IndexManifest) (ss : List Shard) (s : Shard)
    → needs_in mode c.owns ≡ some need
    → collect c mode ≡ ok ms
    → init_manager t c mode st n ≡ some (j, none)
    → In m (c.order ms)
    → generate_shards m ≡ some ss
    → In s ss
    → need (shard_key s) ≡ true
    → (x : Index) × (load (unique_shard_key s) j.engine_store ≡ some x)
unfolding fresh
init_manager-Complete t c mode st n need ms j m ss s w g r v l u k =
    let start = start_sums (fresh mode st n) in
    let (q, run, same, quiet) =
      loaded_run _ j (sym (init_manager-loop t c mode st n need ms w g) ∙ r) in
    let (a, _) = manifests t c.owns need (c.order ms) start q w run (nothing_added mode st n) in
    let there =
      manifests_There t c.owns need (c.order ms) m ss s start q w run (nothing_added mode st n) v l
        u k in
    let tells = subst (Tells q.manager) quiet (outcome-Tells q a) in
    subst (λ (i : IndexManager). (x : Index) × (load (unique_shard_key s) i.engine_store ≡ some x))
      same (found_if_clean s q.manager tells there)
