-- ===== src/Manager/Rebalance/Total.antt =====
-- Rebalancing and deleting do not panic on a manager whose indexes all hold a handle, and leave one.
use vectory.Base.{
  ◌≡◌, refl, sym, subst, Bool, List, [], ◌∷◌, Option, none, some, Bytes, bytes_key, Map, load,
  delete, ◌>>=◌, All, Bool-cases, inl, inr, arith, ◌∙◌,
}
use vectory.Errors.{Result, ok, err}
use vectory.Shard.{Shard, IndexManifest, shard_key, unique_shard_key, generate_unique_shards}
use vectory.Faiss.{Native}
use vectory.Index.{Index, new_index}
use vectory.Index.Handles.{Serving, HasSource, new_index-some, new_index-Serving, delete-some}
use vectory.Manager.{
  IndexManager, Tools, mark_shard_pending, unmark_shard_pending, prepared, delete_loaded,
  delete_shards,
}
use vectory.Manager.Handles.{AllServe, prepared-HasHandle, store-AllServe, delete-AllServe}
use vectory.Manager.Rebalance.{
  sweep_pending, put_rebalanced, place, rebalance_shard, rebalance_shards, rebalance_manifests,
  settle_status, rebalance,
}
use vectory.Manager.Rebalance.Steps.{bind_some}

-- A step returns, and its manager serves with all its indexes.
abbrev pub Goes : Option IndexManager → Type 0
Goes o = (j : IndexManager) × (o ≡ some j) × AllServe j

Goes-bind :
    (o : Option IndexManager) (f : IndexManager → Option IndexManager)
    → Goes o
    → ((j : IndexManager) → AllServe j → Goes (f j))
    → Goes (o >>= f)
Goes-bind none f (j, q, a) next = absurd (cc)
Goes-bind (some i) f (j, q, a) next = let same : i ≡ j = cc in next i (subst AllServe (sym same) a)

delete_loaded-Goes :
    (k : Bytes) (i : IndexManager) (o : Option Index)
    → load k i.engine_store ≡ o
    → AllServe i
    → Goes (delete_loaded k i o)
unfolding delete_loaded
delete_loaded-Goes k i none e a = (i, refl, a)
delete_loaded-Goes k i (some x) e a =
    let (d, q) = delete-some x i.native (a k x e) in
    (
      record i { engine_store = delete k i.engine_store; native = d },
      rw q refl,
      delete-AllServe k d i a,
    )

unmark-AllServe : (s : Shard) (i : IndexManager) → AllServe i → AllServe (unmark_shard_pending s i)
unfolding unmark_shard_pending
unmark-AllServe s i a = ground (arith, a)

module _ (t : Tools) (need : Bytes → Bool) (m : IndexManifest) where
  put_rebalanced-AllServe :
      (s : Shard) (i : IndexManager) (r : Native × Result Index)
      → Serving r
      → AllServe i
      → AllServe (put_rebalanced m s i r)
  unfolding put_rebalanced mark_shard_pending
  put_rebalanced-AllServe s i (n, err e) h a = a
  put_rebalanced-AllServe s i (n, ok x) h a =
      store-AllServe (unique_shard_key s) (prepared i.mode x m.meta.name) n i
        (prepared-HasHandle i.mode x m.meta.name h) a

  made-Goes :
      (s : Shard) (c : Shard) (i : IndexManager) (o : Option (Native × Result Index))
      → new_index t.loader t.scheduler m c i.native ≡ o
      → HasSource m
      → AllServe i
      → Goes (o >>= λ r. some (put_rebalanced m s i r))
  made-Goes s c i none e h a =
      let (r, q) = new_index-some t.loader t.scheduler m c i.native h in
      let z : none ≡ some r = sym e ∙ q in absurd (cc)
  made-Goes s c i (some r) e h a = (
    put_rebalanced m s i r,
    refl,
    put_rebalanced-AllServe s i r (new_index-Serving t.loader t.scheduler m c i.native r e) a,
  )

  place-Goes :
      (s : Shard) (i : IndexManager) (c : Option Shard) (o : Option Index)
      → load (unique_shard_key s) i.engine_store ≡ o
      → HasSource m
      → AllServe i
      → Goes (place t m s i c o)
  unfolding place
  place-Goes s i none o e h a = delete_loaded-Goes (unique_shard_key s) i o e a
  place-Goes s i (some c) (some x) e h a = (i, refl, a)
  place-Goes s i (some c) none e h a =
      made-Goes s c i (new_index t.loader t.scheduler m c i.native) refl h a

  shards-Goes :
      (ss : List Shard) (i : IndexManager)
      → HasSource m
      → AllServe i
      → Goes (rebalance_shards t need m ss i)
  unfolding rebalance_shards rebalance_shard
  shards-Goes [] i h a = (i, refl, a)
  shards-Goes (s ∷ ss) i h a =
      Goes-bind (rebalance_shard t need m s i) _ (place-Goes s i _ _ refl h a)
        (λ j b. shards-Goes ss j h b)

-- The product of the manifest's counts fits, and it has a source if its type of index reads one.
abbrev pub Fits : Bytes × IndexManifest → Type 0
Fits (name, m) = ((ss : List Shard) × (generate_unique_shards m ≡ some ss)) × HasSource m

module _ (t : Tools) (need : Bytes → Bool) where
  manifests-Goes :
      (ms : Map Bytes IndexManifest) (i : IndexManager)
      → All Fits ms
      → AllServe i
      → Goes (rebalance_manifests t need ms i)
  unfolding rebalance_manifests
  manifests-Goes [] i h a = (i, refl, a)
  manifests-Goes ((name, m) ∷ ms) i (((ss, g), source), h) a = rw g (
      Goes-bind (rebalance_shards t need m ss i) _ (shards-Goes t need m ss i source a)
        (λ j b. manifests-Goes ms j h b))

  sweep-AllServe :
      (ps : Map Shard Bool) (i : IndexManager) → AllServe i → AllServe (sweep_pending need ps i)
  unfolding sweep_pending
  sweep-AllServe [] i a = a
  sweep-AllServe ((s, b) ∷ ps) i a = elim (Bool-cases (need (shard_key s))) [
    | inl e ↦ rw (e, sweep_pending) (sweep-AllServe ps i a)
    | inr e ↦
        rw (e, sweep_pending) (sweep-AllServe ps (unmark_shard_pending s i) (unmark-AllServe s i a))
  ]

  -- If every loaded index holds a handle, the products of all manifests fit int32 and those of FAISS have
  -- a source, a rebalance does not panic, and every index that is loaded after it holds a handle again.
  pub rebalance-total :
      (i : IndexManager)
      → All Fits i.index_manifests
      → AllServe i
      → (j : IndexManager) × (rebalance t need i ≡ some j) × AllServe j
  unfolding rebalance settle_status
  rebalance-total i h a =
      Goes-bind (rebalance_manifests t need i.index_manifests _) _
        (manifests-Goes i.index_manifests _ h (sweep-AllServe i.pending_shards _ a))
        (λ j b. (_, refl, b))

pub delete_shards-Goes :
    (ss : List Shard) (i : IndexManager) → AllServe i → Goes (delete_shards ss i)
unfolding delete_shards
delete_shards-Goes [] i a = (i, refl, a)
delete_shards-Goes (s ∷ ss) i a =
    Goes-bind (delete_loaded (unique_shard_key s) i (load (unique_shard_key s) i.engine_store)) _
      (delete_loaded-Goes (unique_shard_key s) i _ refl a) (λ j b. delete_shards-Goes ss j b)

-- Whatever a step gives serves.
abbrev Kept : Option IndexManager → Type 0
Kept o = (j : IndexManager) → o ≡ some j → AllServe j

module _ (t : Tools) (need : Bytes → Bool) (m : IndexManifest) where
  place-Kept :
      (s : Shard) (i : IndexManager) (c : Option Shard) (o : Option Index)
      → load (unique_shard_key s) i.engine_store ≡ o
      → AllServe i
      → Kept (place t m s i c o)
  unfolding place
  place-Kept s i none o e a j q =
      let (k, r, b) = delete_loaded-Goes (unique_shard_key s) i o e a in
      let both : some k ≡ some j = sym r ∙ q in let same : k ≡ j = cc in subst AllServe same b
  place-Kept s i (some c) (some x) e a j q = let same : i ≡ j = cc in subst AllServe same a
  place-Kept s i (some c) none e a j q =
      let (r, made, last) = bind_some (new_index t.loader t.scheduler m c i.native) _ j q in
      let same : put_rebalanced m s i r ≡ j = cc in
      subst AllServe same (
        put_rebalanced-AllServe t need m s i r
          (new_index-Serving t.loader t.scheduler m c i.native r made) a)

  shards-Kept :
      (ss : List Shard) (i : IndexManager) → AllServe i → Kept (rebalance_shards t need m ss i)
  unfolding rebalance_shards rebalance_shard
  shards-Kept [] i a j q = let same : i ≡ j = cc in subst AllServe same a
  shards-Kept (s ∷ ss) i a j q =
      let (k, first, rest) = bind_some (rebalance_shard t need m s i) _ j q in
      shards-Kept ss k (place-Kept s i _ _ refl a k first) j rest

manifests-Kept :
    (t : Tools) (need : Bytes → Bool) (ms : Map Bytes IndexManifest) (i : IndexManager)
    → AllServe i
    → Kept (rebalance_manifests t need ms i)
unfolding rebalance_manifests
manifests-Kept t need [] i a j q = let same : i ≡ j = cc in subst AllServe same a
manifests-Kept t need ((name, m) ∷ ms) i a j q =
    let (ss, g, q') = bind_some (generate_unique_shards m) _ j q in
    let (k, first, rest) = bind_some (rebalance_shards t need m ss i) _ j q' in
    manifests-Kept t need ms k (shards-Kept t need m ss i a k first) j rest

pub rebalance-AllServe :
    (t : Tools) (need : Bytes → Bool) (i j : IndexManager)
    → AllServe i
    → rebalance t need i ≡ some j
    → AllServe j
unfolding rebalance settle_status
rebalance-AllServe t need i j a q =
    let (k, run, last) = bind_some (rebalance_manifests t need i.index_manifests _) _ j q in
    let same : settle_status k ≡ j = cc in
    subst AllServe same
      (manifests-Kept t need i.index_manifests _ (sweep-AllServe t need i.pending_shards _ a) k run)
