-- ===== src/Manager/Rebalance/Steps.antt =====
-- One shard of a rebalance: where it ends, and what it leaves alone.
use vectory.Base.{
  ◌≡◌, ◌⊎◌, inl, inr, refl, sym, ap, ◌∙◌, subst, Bool, true, false, Option, none, some, Bytes,
  bytes_key, bytes_same, bytes_same_iff, load, delete, load-store, load-delete, ◌>>=◌, Bool-cases,
  arith, load-store_self, load-delete_self,
}
use vectory.Errors.{Result, ok, err}
use vectory.Shard.{Shard, IndexManifest, unique_shard_key, shard_as_key, below}
use vectory.Faiss.{Native}
use vectory.Index
use vectory.Index.{Index, new_index}
use vectory.Manager.{IndexManager, Tools, mark_shard_pending, prepared, delete_loaded}
use vectory.Manager.Rebalance.{assigned_replica, put_rebalanced, place, rebalance_shard}

-- A bind that gives a result, taken apart.
pub bind_some :
    {A B : Type 0} (o : Option A) (f : A → Option B) (b : B)
    → (o >>= f) ≡ some b
    → (a : A) × (o ≡ some a) × (f a ≡ some b)
bind_some none f b q = absurd (cc)
bind_some (some a) f b q = (a, refl, q)

abbrev pub is_assigned : Option Shard → Bool
is_assigned none = false
is_assigned (some s) = true

-- A unique key that is wanted here is loaded, or a shard with that key is pending; one that is not
-- wanted is not loaded.
abbrev pub Placed : Bool → Bytes → IndexManager → Type 0
Placed wanted k i =
    ((wanted ≡ true)
      × (((x : Index) × (load k i.engine_store ≡ some x))
          ⊎ ((p : Shard) × (unique_shard_key p ≡ k) × (load p i.pending_shards ≡ some true))))
    ⊎ ((wanted ≡ false) × (load k i.engine_store ≡ none))

-- What a step on the key `k` leaves alone: the other keys, and whatever is pending.
pub record Leaves (k : Bytes) (i j : IndexManager) : Type 0 where
  pub others : (l : Bytes) → bytes_same k l ≡ false → load l j.engine_store ≡ load l i.engine_store
  pub pending :
      (p : Shard) → load p i.pending_shards ≡ some true → load p j.pending_shards ≡ some true

pub mark_keeps :
    (s p : Shard) (i : IndexManager)
    → load p i.pending_shards ≡ some true
    → load p (mark_shard_pending s i).pending_shards ≡ some true
unfolding mark_shard_pending
mark_keeps s p i h = ground (arith, load-store s p true i.pending_shards)

marked : (s : Shard) (i : IndexManager) → load s (mark_shard_pending s i).pending_shards ≡ some true
unfolding mark_shard_pending
marked s i = load-store_self s true i.pending_shards

put_rebalanced-Leaves :
    (m : IndexManifest) (s : Shard) (i : IndexManager) (r : Native × Result Index)
    → Leaves (unique_shard_key s) i (put_rebalanced m s i r)
unfolding put_rebalanced mark_shard_pending
put_rebalanced-Leaves m s i (n, err e) = record {
  others = λ l d. refl;
  pending = λ p h. mark_keeps s p (record i { native = n }) h;
}
put_rebalanced-Leaves m s i (n, ok x) = record {
  others = λ l d.
      load-store (unique_shard_key s) l (prepared i.mode x m.meta.name) i.engine_store ∙ rw d;
  pending = λ p h. h;
}

put_rebalanced-Placed :
    (wanted : Bool) (m : IndexManifest) (s : Shard) (i : IndexManager) (r : Native × Result Index)
    → wanted ≡ true
    → Placed wanted (unique_shard_key s) (put_rebalanced m s i r)
unfolding put_rebalanced
put_rebalanced-Placed wanted m s i (n, err e) w =
    inl (w, inr (s, refl, marked s (record i { native = n })))
put_rebalanced-Placed wanted m s i (n, ok x) w =
    inl (w, inl (_, load-store_self (unique_shard_key s) _ i.engine_store))

removed :
    (k : Bytes) (i j : IndexManager) (o : Option Native)
    → (o >>= λ n. some (record i { engine_store = delete k i.engine_store; native = n })) ≡ some j
    → (n : Native) × (record i { engine_store = delete k i.engine_store; native = n } ≡ j)
removed k i j none q = absurd (cc)
removed k i j (some n) q = (n, cc)

pub delete_loaded-Leaves :
    (k : Bytes) (i j : IndexManager) (o : Option Index)
    → delete_loaded k i o ≡ some j
    → Leaves k i j
unfolding delete_loaded
delete_loaded-Leaves k i j none q =
    let same : i ≡ j = cc in
    subst (Leaves k i) same (record { others = λ l d. refl; pending = λ p h. h })
delete_loaded-Leaves k i j (some x) q =
    let (n, same) = removed k i j (Index.delete x i.native) q in
    subst (Leaves k i) same
      (record { others = λ l d. load-delete k l i.engine_store ∙ rw d; pending = λ p h. h })

pub delete_loaded-none :
    (k : Bytes) (i j : IndexManager) (o : Option Index)
    → load k i.engine_store ≡ o
    → delete_loaded k i o ≡ some j
    → load k j.engine_store ≡ none
unfolding delete_loaded
delete_loaded-none k i j none e q =
    let same : i ≡ j = cc in ap (λ (x : IndexManager). load k x.engine_store) (sym same) ∙ e
delete_loaded-none k i j (some x) e q =
    let (n, same) = removed k i j (Index.delete x i.native) q in
    ap (λ (x : IndexManager). load k x.engine_store) (sym same) ∙ load-delete_self k i.engine_store

place-Leaves :
    (t : Tools) (m : IndexManifest) (s : Shard) (i j : IndexManager) (c : Option Shard)
    (o : Option Index)
    → place t m s i c o ≡ some j
    → Leaves (unique_shard_key s) i j
unfolding place
place-Leaves t m s i j none o q = delete_loaded-Leaves (unique_shard_key s) i j o q
place-Leaves t m s i j (some c) (some x) q =
    let same : i ≡ j = cc in
    subst (Leaves (unique_shard_key s) i) same (record { others = λ l d. refl; pending = λ p h. h })
place-Leaves t m s i j (some c) none q =
    let (r, _, last) = bind_some (new_index t.loader t.scheduler m c i.native) _ j q in
    let same : put_rebalanced m s i r ≡ j = cc in
    subst (Leaves (unique_shard_key s) i) same (put_rebalanced-Leaves m s i r)

place-Placed :
    (wanted : Bool) (t : Tools) (m : IndexManifest) (s : Shard) (i j : IndexManager)
    (c : Option Shard) (o : Option Index)
    → is_assigned c ≡ wanted
    → load (unique_shard_key s) i.engine_store ≡ o
    → place t m s i c o ≡ some j
    → Placed wanted (unique_shard_key s) j
unfolding place
place-Placed wanted t m s i j none o a e q =
    inr (sym a, delete_loaded-none (unique_shard_key s) i j o e q)
place-Placed wanted t m s i j (some c) (some x) a e q =
    let same : i ≡ j = cc in
    subst (Placed wanted (unique_shard_key s)) same (inl (sym a, inl (x, e)))
place-Placed wanted t m s i j (some c) none a e q =
    let (r, _, last) = bind_some (new_index t.loader t.scheduler m c i.native) _ j q in
    let same : put_rebalanced m s i r ≡ j = cc in
    subst (Placed wanted (unique_shard_key s)) same (put_rebalanced-Placed wanted m s i r (sym a))

-- A step places its own key.
pub rebalance_shard-Placed :
    (wanted : Bool) (t : Tools) (need : Bytes → Bool) (m : IndexManifest) (s : Shard)
    (i j : IndexManager)
    → is_assigned (assigned_replica need s (below m.meta.replicas)) ≡ wanted
    → rebalance_shard t need m s i ≡ some j
    → Placed wanted (unique_shard_key s) j
unfolding rebalance_shard
rebalance_shard-Placed wanted t need m s i j a q = place-Placed wanted t m s i j _ _ a refl q

pub rebalance_shard-Leaves :
    (t : Tools) (need : Bytes → Bool) (m : IndexManifest) (s : Shard) (i j : IndexManager)
    → rebalance_shard t need m s i ≡ some j
    → Leaves (unique_shard_key s) i j
unfolding rebalance_shard
rebalance_shard-Leaves t need m s i j q = place-Leaves t m s i j _ _ q

Leaves-Placed :
    (wanted : Bool) (k l : Bytes) (i j : IndexManager)
    → bytes_same k l ≡ false
    → Leaves k i j
    → Placed wanted l i
    → Placed wanted l j
Leaves-Placed wanted k l i j d v (inl (w, inl (x, e))) = inl (w, inl (x, v.others l d ∙ e))
Leaves-Placed wanted k l i j d v (inl (w, inr (p, u, e))) = inl (w, inr (p, u, v.pending p e))
Leaves-Placed wanted k l i j d v (inr (w, e)) = inr (w, v.others l d ∙ e)

-- A step keeps every key placed, its own included.
pub rebalance_shard-keeps :
    (wanted : Bool) (t : Tools) (need : Bytes → Bool) (m : IndexManifest) (s : Shard)
    (i j : IndexManager) (l : Bytes)
    → (unique_shard_key s ≡ l
        → is_assigned (assigned_replica need s (below m.meta.replicas)) ≡ wanted)
    → rebalance_shard t need m s i ≡ some j
    → Placed wanted l i
    → Placed wanted l j
rebalance_shard-keeps wanted t need m s i j l a q v =
    elim (Bool-cases (bytes_same (unique_shard_key s) l)) [
      | inl e ↦
          let same = (bytes_same_iff (unique_shard_key s) l).0 e in
          subst (λ k. Placed wanted k j) same
            (rebalance_shard-Placed wanted t need m s i j (a same) q)
      | inr e ↦
          Leaves-Placed wanted (unique_shard_key s) l i j e
            (rebalance_shard-Leaves t need m s i j q) v
    ]
