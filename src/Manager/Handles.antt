-- ===== src/Manager/Handles.antt =====
-- Every index in the store of the manager holds a handle of the native library.
use vectory.Base.{
  ◌≡◌, refl, sym, ◌∙◌, subst, none, some, Bytes, bytes_key, bytes_same, load, store, delete,
  load-store, load-delete, Bool-cases, inl, inr, ℕ, suc, List, Option, Bool, ◌∷◌, [],
}
use vectory.Faiss.{Native}
use vectory.Index.{Index, faiss, mock, set_cluster_reload_callback}
use vectory.Index.Handles.{HasHandle, Serving, new_index-Serving}
use vectory.Manager.Rebalance.Steps.{bind_some}
use vectory.Index.{new_index}
use vectory.Manager.{
  IndexManager, Mode, prepared, put_loaded, mark_shard_pending, Progress, Tools, load_missing,
  load_shards, load_shard, load_checked, keep_manifest, load_with, load_index,
}
use vectory.Errors.{Result, err, ok}
use vectory.Shard.{Shard, IndexManifest, shard_key, unique_shard_key}

abbrev pub AllServe : IndexManager → Type 0
AllServe i = (k : Bytes) (x : Index) → load k i.engine_store ≡ some x → HasHandle x

pub prepared-HasHandle :
    (mode : Mode) (x : Index) (name : Bytes) → HasHandle x → HasHandle (prepared mode x name)
unfolding set_cluster_reload_callback
prepared-HasHandle Mode.single x name h = h
prepared-HasHandle Mode.cluster (faiss f) name h = h
prepared-HasHandle Mode.cluster (mock m) name h = tt

pub store-AllServe :
    (k : Bytes) (x : Index) (n : Native) (i : IndexManager)
    → HasHandle x
    → AllServe i
    → AllServe (record i { engine_store = store k x i.engine_store; native = n })
store-AllServe k x n i h a l y q = elim (Bool-cases (bytes_same k l)) [
  | inl e ↦
      let z : some x ≡ some y = sym (load-store k l x i.engine_store ∙ rw e refl) ∙ q in
      let same : x ≡ y = cc in subst HasHandle same h
  | inr e ↦ a l y (sym (load-store k l x i.engine_store ∙ rw e refl) ∙ q)
]

pub delete-AllServe :
    (k : Bytes) (n : Native) (i : IndexManager)
    → AllServe i
    → AllServe (record i { engine_store = delete k i.engine_store; native = n })
delete-AllServe k n i a l y q = elim (Bool-cases (bytes_same k l)) [
  | inl e ↦
      let z : none ≡ some y = sym (load-delete k l i.engine_store ∙ rw e refl) ∙ q in absurd (cc)
  | inr e ↦ a l y (sym (load-delete k l i.engine_store ∙ rw e refl) ∙ q)
]

put_loaded-AllServe :
    (m : IndexManifest) (s : Shard) (p : Progress) (r : Native × Result Index)
    → Serving r
    → AllServe p.manager
    → AllServe (put_loaded m s p r).manager
unfolding put_loaded mark_shard_pending
put_loaded-AllServe m s p (n, err e) h a = a
put_loaded-AllServe m s p (n, ok x) h a =
    store-AllServe (unique_shard_key s) (prepared p.manager.mode x m.meta.name) n p.manager
      (prepared-HasHandle p.manager.mode x m.meta.name h) a

missing-AllServe :
    (t : Tools) (m : IndexManifest) (need : Bytes → Bool) (s : Shard) (p q : Progress)
    (o : Option Index)
    → AllServe p.manager
    → load_missing t m need s p o ≡ some q
    → AllServe q.manager
unfolding load_missing
missing-AllServe t m need s p q (some x) a e =
    let same : p ≡ q = cc in subst (λ (y : Progress). AllServe y.manager) same a
missing-AllServe t m need s p q none a e = elim (Bool-cases (need (shard_key s))) [
  | inl k ↦
      let (r, made, last) =
        bind_some (new_index t.loader t.scheduler m s p.manager.native) _ q (rw k at e) in
      let same : put_loaded m s (record p { total = suc p.total }) r ≡ q = cc in
      subst (λ (y : Progress). AllServe y.manager) same
        (put_loaded-AllServe m s (record p { total = suc p.total }) r
          (new_index-Serving t.loader t.scheduler m s p.manager.native r made) a)
  | inr k ↦
      let whole : some p ≡ some q = rw k at e in
      let same : p ≡ q = cc in subst (λ (y : Progress). AllServe y.manager) same a
]

shards-AllServe :
    (t : Tools) (m : IndexManifest) (need : Bytes → Bool) (ss : List Shard) (p q : Progress)
    → AllServe p.manager
    → load_shards t m need ss p ≡ some q
    → AllServe q.manager
unfolding load_shards load_shard
shards-AllServe t m need [] p q a e =
    let same : p ≡ q = cc in subst (λ (y : Progress). AllServe y.manager) same a
shards-AllServe t m need (s ∷ ss) p q a e =
    let (r, first, rest) = bind_some (load_shard t m need s p) _ q e in
    shards-AllServe t m need ss r q (missing-AllServe t m need s p r _ a first) rest

checked-AllServe :
    (t : Tools) (m : IndexManifest) (need : Bytes → Bool) (i j : IndexManager)
    (o : Option (List Shard)) (r : Result (ℕ × ℕ))
    → AllServe i
    → load_checked t m need i o ≡ some (j, r)
    → AllServe j
unfolding load_checked keep_manifest
checked-AllServe t m need i j none r a q = absurd (cc)
checked-AllServe t m need i j (some ss) r a q =
    let start : Progress = record { manager = i; total = 0; success = 0 } in
    let (done, run, last) = bind_some (load_shards t m need ss start) _ (j, r) q in
    let same : record done.manager {
      index_manifests = store m.meta.name m done.manager.index_manifests;
    }
        ≡ j =
      cc in
    subst AllServe same (shards-AllServe t m need ss start done a run)

with-AllServe :
    (t : Tools) (m : IndexManifest) (i j : IndexManager) (o : Option (Bytes → Bool))
    (r : Result (ℕ × ℕ))
    → AllServe i
    → load_with t m i o ≡ some (j, r)
    → AllServe j
unfolding load_with
with-AllServe t m i j none r a q = let same : i ≡ j = cc in subst AllServe same a
with-AllServe t m i j (some need) r a q = checked-AllServe t m need i j _ r a q

-- Loading an index keeps every index serving.
pub load_index-AllServe :
    (t : Tools) (owns : Option (Bytes → Bool)) (m : IndexManifest) (i j : IndexManager)
    (r : Result (ℕ × ℕ))
    → AllServe i
    → load_index t owns m i ≡ some (j, r)
    → AllServe j
unfolding load_index
load_index-AllServe t owns m i j r a q = with-AllServe t m i j _ r a q
