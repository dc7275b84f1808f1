-- ===== src/Manager/Revision/Commit.antt =====
-- What `commitIndex` does to the shards of an index.
use vectory.Base.{
  ℕ, ◌≡◌, inl, inr, refl, sym, ap, ◌∙◌, subst, true, false, List, [], ◌∷◌, Option, none, some,
  Bytes, bytes_key, bytes_same, bytes_same_iff, load, load-store, load-store_self, ℤ, In,
  Bool-cases,
}
use vectory.Shard.{Shard, IndexManifest, unique_shard_key, generate_unique_shards}
use vectory.Faiss.{FaissIndex, commit_staged}
use vectory.Faiss.Revision.{commit_staged-Commits}
use vectory.Index.{Index, faiss, mock}
use vectory.Manager.{IndexManager}
use vectory.Manager.Revision.{
  Etcd, Membership, commit_loaded, commit_shards, commit_manifest, commit_index, clear_ready,
}
use vectory.Manager.Handles.{AllServe, store-AllServe}
use vectory.Faiss.Deleting.{commit_staged-Holds}
use vectory.Manager.Rebalance.Steps.{bind_some}

-- The shard under a key serves the handle at the revision, with nothing staged.
abbrev pub Serves : Bytes → ℕ → ℤ → IndexManager → Type 0
Serves k h r i =
    (f : FaissIndex) × (load k i.engine_store ≡ some (faiss f))
    × (f.index ≡ some h)
    × (f.revision ≡ r)
    × (f.staged_index ≡ none)

-- It serves something, and has the handle staged at the revision.
abbrev pub HasStaged : Bytes → ℕ → ℤ → IndexManager → Type 0
HasStaged k h r i =
    (f : FaissIndex) × (load k i.engine_store ≡ some (faiss f))
    × (f.staged_index ≡ some h)
    × (f.staged_revision ≡ r)

-- The other keys stay as they are.
commit_loaded-others :
    (r : ℤ) (k l : Bytes) (i : IndexManager) (o : Option Index)
    → bytes_same k l ≡ false
    → load l (commit_loaded r k i o).engine_store ≡ load l i.engine_store
unfolding commit_loaded
commit_loaded-others r k l i none d = refl
commit_loaded-others r k l i (some (mock m)) d = refl
commit_loaded-others r k l i (some (faiss f)) d =
    load-store k l (faiss (commit_staged r f i.native).0) i.engine_store ∙ rw d

commit_staged-Serves :
    (r : ℤ) (k : Bytes) (h : ℕ) (i : IndexManager) (f : FaissIndex)
    → f.staged_index ≡ some h
    → f.staged_revision ≡ r
    → Serves k h r (commit_loaded r k i (some (faiss f)))
unfolding commit_loaded
commit_staged-Serves r k h i f a b = elim (commit_staged-Commits r f i.native) [
  | inl (h', held, _, _, idx, rev, clear, _, _) ↦ (
    (commit_staged r f i.native).0,
    load-store_self k _ i.engine_store,
    idx ∙ sym held ∙ a,
    rev,
    clear,
  )
  | inr (e, _, _, _, inl missing) ↦ absurd (cc)
  | inr (e, _, _, _, inr other) ↦ absurd (other b)
]

-- A shard with nothing staged stays as it is.
commit_again :
    (r : ℤ) (k : Bytes) (h : ℕ) (i : IndexManager) (f : FaissIndex)
    → f.index ≡ some h
    → f.revision ≡ r
    → f.staged_index ≡ none
    → Serves k h r (commit_loaded r k i (some (faiss f)))
unfolding commit_loaded
commit_again r k h i f a b c = elim (commit_staged-Commits r f i.native) [
  | inl (h', held, _, _, _, _, _, _, _) ↦ absurd (cc)
  | inr (e, _, same, _, _) ↦
      (f, load-store_self k _ i.engine_store ∙ ap (λ x. some (faiss x)) same, a, b, c)
]

module _ (r : ℤ) (k : Bytes) (h : ℕ) where
  one_keeps :
      (l : Bytes) (i : IndexManager)
      → Serves k h r i
      → Serves k h r (commit_loaded r l i (load l i.engine_store))
  one_keeps l i (f, e, a, b, c) = elim (Bool-cases (bytes_same l k)) [
    | inl q ↦
        let same = sym ((bytes_same_iff l k).0 q) in
        subst (λ x. Serves k h r (commit_loaded r x i (load x i.engine_store))) same
          (subst (λ o. Serves k h r (commit_loaded r k i o)) (sym e) (commit_again r k h i f a b c))
    | inr q ↦ (f, commit_loaded-others r l k i _ q ∙ e, a, b, c)
  ]

  one_keeps_staged :
      (l : Bytes) (i : IndexManager)
      → bytes_same l k ≡ false
      → HasStaged k h r i
      → HasStaged k h r (commit_loaded r l i (load l i.engine_store))
  one_keeps_staged l i q (f, e, a, b) = (f, commit_loaded-others r l k i _ q ∙ e, a, b)

  one_commits :
      (l : Bytes) (i : IndexManager)
      → bytes_same l k ≡ true
      → HasStaged k h r i
      → Serves k h r (commit_loaded r l i (load l i.engine_store))
  one_commits l i q (f, e, a, b) =
      let same = sym ((bytes_same_iff l k).0 q) in
      subst (λ x. Serves k h r (commit_loaded r x i (load x i.engine_store))) same
        (subst (λ o. Serves k h r (commit_loaded r k i o)) (sym e)
          (commit_staged-Serves r k h i f a b))

  all_keep :
      (ss : List Shard) (i : IndexManager) → Serves k h r i → Serves k h r (commit_shards r ss i)
  unfolding commit_shards
  all_keep [] i v = v
  all_keep (s ∷ ss) i v = all_keep ss _ (one_keeps (unique_shard_key s) i v)

  all_commit :
      (ss : List Shard) (s : Shard) (i : IndexManager)
      → unique_shard_key s ≡ k
      → In s ss
      → HasStaged k h r i
      → Serves k h r (commit_shards r ss i)
  unfolding commit_shards
  all_commit [] s i e m v = elim m [ ]
  all_commit (x ∷ ss) s i e (inl q) v = all_keep ss _ (
      one_commits (unique_shard_key x) i
        ((bytes_same_iff (unique_shard_key x) k).1 (ap unique_shard_key q ∙ e)) v)
  all_commit (x ∷ ss) s i e (inr m) v = elim (Bool-cases (bytes_same (unique_shard_key x) k)) [
    | inl q ↦ all_keep ss _ (one_commits (unique_shard_key x) i q v)
    | inr q ↦ all_commit ss s _ e m (one_keeps_staged (unique_shard_key x) i q v)
  ]

-- A commit of a revision makes every shard of the index that is here and has that revision staged
-- serve what it staged, at that revision and with nothing staged any more.
pub commit_index-Serves :
    (c : Option Membership) (name : Bytes) (r : ℤ) (i j : IndexManager) (e d : Etcd)
    (m : IndexManifest) (ss : List Shard) (s : Shard) (h : ℕ)
    → load name i.index_manifests ≡ some m
    → generate_unique_shards m ≡ some ss
    → In s ss
    → HasStaged (unique_shard_key s) h r i
    → commit_index c name r i e ≡ some (j, d)
    → Serves (unique_shard_key s) h r j
unfolding commit_index commit_manifest
commit_index-Serves c name r i j e d m ss s h l g w v q =
    let whole : some (commit_shards r ss i, clear_ready c name e) ≡ some (j, d) =
      simp (l, g) at q in
    let same : commit_shards r ss i ≡ j = cc in
    subst (Serves (unique_shard_key s) h r) same
      (all_commit r (unique_shard_key s) h ss s i refl w v)

loaded-AllServe :
    (r : ℤ) (k : Bytes) (i : IndexManager) (o : Option Index)
    → load k i.engine_store ≡ o
    → AllServe i
    → AllServe (commit_loaded r k i o)
unfolding commit_loaded
loaded-AllServe r k i none e a = a
loaded-AllServe r k i (some (mock m)) e a = a
loaded-AllServe r k i (some (faiss f)) e a =
    store-AllServe k _ (commit_staged r f i.native).1 i
      (commit_staged-Holds r f i.native (a k (faiss f) e)) a

shards-AllServe :
    (r : ℤ) (ss : List Shard) (i : IndexManager) → AllServe i → AllServe (commit_shards r ss i)
unfolding commit_shards
shards-AllServe r [] i a = a
shards-AllServe r (s ∷ ss) i a =
    shards-AllServe r ss _ (loaded-AllServe r (unique_shard_key s) i _ refl a)

manifest-AllServe :
    (c : Option Membership) (name : Bytes) (r : ℤ) (i j : IndexManager) (e d : Etcd)
    (o : Option IndexManifest)
    → AllServe i
    → commit_manifest c name r i e o ≡ some (j, d)
    → AllServe j
unfolding commit_manifest
manifest-AllServe c name r i j e d none a q = let same : i ≡ j = cc in subst AllServe same a
manifest-AllServe c name r i j e d (some m) a q =
    let (ss, _, run) = bind_some (generate_unique_shards m) _ (j, d) q in
    let same : commit_shards r ss i ≡ j = cc in subst AllServe same (shards-AllServe r ss i a)

-- A commit keeps every index serving.
pub commit_index-AllServe :
    (c : Option Membership) (name : Bytes) (r : ℤ) (i j : IndexManager) (e d : Etcd)
    → AllServe i
    → commit_index c name r i e ≡ some (j, d)
    → AllServe j
unfolding commit_index
commit_index-AllServe c name r i j e d a q = manifest-AllServe c name r i j e d _ a q
