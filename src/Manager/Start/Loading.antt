-- ===== src/Manager/Start/Loading.antt =====
-- What the loop of `loadIndex` over the shards leaves behind: the shards that this node needs, and the
-- counters.
use vectory.Base.{
  suc, ◌≤◌, ◌≡◌, ◌⊎◌, inl, inr, refl, ap, ◌∙◌, subst, Bool, true, List, [], ◌∷◌, Option, none, some,
  Bytes, bytes_key, bytes_same, bytes_same_iff, Map, load, load-store, load-store_self, In, arith,
  Bool-cases, ◌<◌, false,
}
use vectory.Errors.{Result, ok, err}
use vectory.Shard.{Shard, IndexManifest, shard_key, unique_shard_key, shard_as_key}
use vectory.Faiss.{Native}
use vectory.Index.{Index}
use vectory.Manager.{
  IndexManager, Tools, Progress, mark_shard_pending, prepared, put_loaded, load_missing, load_shard,
  load_shards,
}
use vectory.Manager.Rebalance.Steps.{mark_keeps, bind_some}
use vectory.Index.{new_index}
use vectory.Index.Handles.{HasSource, new_index-some}

-- The shard is loaded, under its unique key, or marked pending.
abbrev pub There : Shard → IndexManager → Type 0
There s i =
    ((x : Index) × (load (unique_shard_key s) i.engine_store ≡ some x))
    ⊎ (load s i.pending_shards ≡ some true)

-- What was there stays there.
pub record Grows (i j : IndexManager) : Type 0 where
  pub kept :
      (k : Bytes) (x : Index) → load k i.engine_store ≡ some x → load k j.engine_store ≡ some x
  pub pending :
      (s : Shard) → load s i.pending_shards ≡ some true → load s j.pending_shards ≡ some true
  pub same_mode : j.mode ≡ i.mode

pub Grows-refl : (i : IndexManager) → Grows i i
Grows-refl i = record { kept = λ k x h. h; pending = λ s h. h; same_mode = refl }

pub Grows-trans : (i j l : IndexManager) → Grows i j → Grows j l → Grows i l
Grows-trans i j l a b = record {
  kept = λ k x h. b.kept k x (a.kept k x h);
  pending = λ s h. b.pending s (a.pending s h);
  same_mode = b.same_mode ∙ a.same_mode;
}

pub Grows-There : (s : Shard) (i j : IndexManager) → Grows i j → There s i → There s j
Grows-There s i j g (inl (x, h)) = inl (x, g.kept (unique_shard_key s) x h)
Grows-There s i j g (inr h) = inr (g.pending s h)

-- No more shards were loaded than tried; none was marked if all that were tried were loaded, and one
-- was if not.
pub record Counts (ps : Map Shard Bool) (p : Progress) : Type 0 where
  pub fits : p.success ≤ p.total
  pub clean : p.success ≡ p.total → p.manager.pending_shards ≡ ps
  pub marked : p.success < p.total → (s : Shard) × (load s p.manager.pending_shards ≡ some true)

put_loaded-Grows :
    (m : IndexManifest) (s : Shard) (p : Progress) (r : Native × Result Index)
    → load (unique_shard_key s) p.manager.engine_store ≡ none
    → Grows p.manager (put_loaded m s p r).manager
unfolding put_loaded mark_shard_pending
put_loaded-Grows m s p (n, err e) h = record {
  kept = λ k x l. l;
  pending = λ q l. mark_keeps s q (record p.manager { native = n }) l;
  same_mode = refl;
}
put_loaded-Grows m s p (n, ok x) h = record {
  kept = λ k y l. elim (Bool-cases (bytes_same (unique_shard_key s) k)) [
    | inl q ↦
        let z =
          ap (λ i. load i p.manager.engine_store) ((bytes_same_iff (unique_shard_key s) k).0 q) in
        absurd (cc)
    | inr q ↦
        load-store (unique_shard_key s) k (prepared p.manager.mode x m.meta.name)
          p.manager.engine_store
        ∙ rw q l
  ];
  pending = λ q l. l;
  same_mode = refl;
}

put_loaded-There :
    (m : IndexManifest) (s : Shard) (p : Progress) (r : Native × Result Index)
    → There s (put_loaded m s p r).manager
unfolding put_loaded mark_shard_pending
put_loaded-There m s p (n, err e) = inr (load-store_self s true p.manager.pending_shards)
put_loaded-There m s p (n, ok x) =
    inl (_, load-store_self (unique_shard_key s) _ p.manager.engine_store)

put_loaded-Counts :
    (ps : Map Shard Bool) (m : IndexManifest) (s : Shard) (p : Progress) (r : Native × Result Index)
    → Counts ps p
    → Counts ps (put_loaded m s (record p { total = suc p.total }) r)
unfolding put_loaded mark_shard_pending
put_loaded-Counts ps m s p (n, err e) c = record {
  fits = let f = c.fits in omega arith;
  clean = λ q. let f = c.fits in absurd (omega (arith, q));
  marked = λ q. (s, load-store_self s true p.manager.pending_shards);
}
put_loaded-Counts ps m s p (n, ok x) c = record {
  fits = let f = c.fits in omega arith;
  clean = λ q. c.clean (omega (arith, q));
  marked = λ q. c.marked (omega (arith, q));
}

-- What one step of the loop gives: the shard as it was, or a try of `NewIndex`.
abbrev Tried : Tools → IndexManifest → (Bytes → Bool) → Shard → Progress → Progress → Type 0
Tried t m need s p q =
    ((p ≡ q)
      × (((x : Index) × (load (unique_shard_key s) p.manager.engine_store ≡ some x))
          ⊎ (need (shard_key s) ≡ false)))
    ⊎ ((r : Native × Result Index) × (load (unique_shard_key s) p.manager.engine_store ≡ none)
        × (put_loaded m s (record p { total = suc p.total }) r ≡ q))

module _ (t : Tools) (m : IndexManifest) (need : Bytes → Bool) where
  missing-Tried :
      (s : Shard) (p q : Progress) (o : Option Index)
      → load (unique_shard_key s) p.manager.engine_store ≡ o
      → load_missing t m need s p o ≡ some q
      → Tried t m need s p q
  unfolding load_missing
  missing-Tried s p q (some x) h e = inl (cc, inl (x, h))
  missing-Tried s p q none h e = elim (Bool-cases (need (shard_key s))) [
    | inl k ↦
        let (r, _, last) =
          bind_some (new_index t.loader t.scheduler m s p.manager.native) _ q (rw k at e) in
        inr (r, h, cc)
    | inr k ↦ let whole : some p ≡ some q = rw k at e in inl (cc, inr k)
  ]

  load_shard-Tried :
      (s : Shard) (p q : Progress) → load_shard t m need s p ≡ some q → Tried t m need s p q
  unfolding load_shard
  load_shard-Tried s p q e = missing-Tried s p q _ refl e

  Tried-Grows : (s : Shard) (p q : Progress) → Tried t m need s p q → Grows p.manager q.manager
  Tried-Grows s p q (inl (same, _)) =
      subst (λ (y : Progress). Grows p.manager y.manager) same (Grows-refl p.manager)
  Tried-Grows s p q (inr (r, h, same)) =
      subst (λ (y : Progress). Grows p.manager y.manager) same
        (put_loaded-Grows m s (record p { total = suc p.total }) r h)

  Tried-There :
      (s : Shard) (p q : Progress)
      → need (shard_key s) ≡ true
      → Tried t m need s p q
      → There s q.manager
  Tried-There s p q k (inl (same, inl x)) = subst (λ (y : Progress). There s y.manager) same (inl x)
  Tried-There s p q k (inl (same, inr n)) = absurd (cc)
  Tried-There s p q k (inr (r, h, same)) =
      subst (λ (y : Progress). There s y.manager) same
        (put_loaded-There m s (record p { total = suc p.total }) r)

  Tried-Counts :
      (ps : Map Shard Bool) (s : Shard) (p q : Progress)
      → Counts ps p
      → Tried t m need s p q
      → Counts ps q
  Tried-Counts ps s p q c (inl (same, _)) = subst (Counts ps) same c
  Tried-Counts ps s p q c (inr (r, _, same)) =
      subst (Counts ps) same (put_loaded-Counts ps m s p r c)

  pub load_shards-Grows :
      (ss : List Shard) (p q : Progress)
      → load_shards t m need ss p ≡ some q
      → Grows p.manager q.manager
  unfolding load_shards
  load_shards-Grows [] p q e =
      let same : p ≡ q = cc in
      subst (λ (y : Progress). Grows p.manager y.manager) same (Grows-refl p.manager)
  load_shards-Grows (s ∷ ss) p q e =
      let (r, first, rest) = bind_some (load_shard t m need s p) _ q e in
      Grows-trans p.manager r.manager q.manager (Tried-Grows s p r (load_shard-Tried s p r first))
        (load_shards-Grows ss r q rest)

  pub load_shards-Counts :
      (ps : Map Shard Bool) (ss : List Shard) (p q : Progress)
      → Counts ps p
      → load_shards t m need ss p ≡ some q
      → Counts ps q
  unfolding load_shards
  load_shards-Counts ps [] p q c e = let same : p ≡ q = cc in subst (Counts ps) same c
  load_shards-Counts ps (s ∷ ss) p q c e =
      let (r, first, rest) = bind_some (load_shard t m need s p) _ q e in
      load_shards-Counts ps ss r q (Tried-Counts ps s p r c (load_shard-Tried s p r first)) rest

  pub load_shards-There :
      (ss : List Shard) (s : Shard) (p q : Progress)
      → In s ss
      → need (shard_key s) ≡ true
      → load_shards t m need ss p ≡ some q
      → There s q.manager
  unfolding load_shards
  load_shards-There [] s p q w k e = elim w [ ]
  load_shards-There (x ∷ ss) s p q (inl same) k e =
      let (r, first, rest) = bind_some (load_shard t m need x p) _ q e in
      Grows-There s r.manager q.manager (load_shards-Grows ss r q rest) (
        subst (λ y. There y r.manager) same
          (Tried-There x p r (ap (λ y. need (shard_key y)) same ∙ k)
            (load_shard-Tried x p r first)))
  load_shards-There (x ∷ ss) s p q (inr w) k e =
      let (r, _, rest) = bind_some (load_shard t m need x p) _ q e in
      load_shards-There ss s r q w k rest

  -- With a source no shard panics.
  missing-some :
      (s : Shard) (p : Progress) (o : Option Index)
      → HasSource m
      → (q : Progress) × (load_missing t m need s p o ≡ some q)
  unfolding load_missing
  missing-some s p (some x) h = (p, refl)
  missing-some s p none h = elim (Bool-cases (need (shard_key s))) [
    | inl k ↦
        let (r, made) = new_index-some t.loader t.scheduler m s p.manager.native h in
        (put_loaded m s (record p { total = suc p.total }) r, rw (k, made) refl)
    | inr k ↦ (p, rw k refl)
  ]

  pub load_shards-some :
      (ss : List Shard) (p : Progress)
      → HasSource m
      → (q : Progress) × (load_shards t m need ss p ≡ some q)
  unfolding load_shards load_shard
  load_shards-some [] p h = (p, refl)
  load_shards-some (s ∷ ss) p h =
      let (r, first) = missing-some s p (load (unique_shard_key s) p.manager.engine_store) h in
      let (q, rest) = load_shards-some ss r h in (q, rw (first, rest) refl)
