-- ===== src/Manager/Start/Events.antt =====
-- What the events of the watches do: deletion of an index, and the commit of a revision.
use vectory.Base.{
  ℕ, ◌≡◌, ◌≢◌, inl, inr, refl, sym, ap, ◌∙◌, subst, Bool, false, List, [], ◌∷◌, Option, none, some,
  Bytes, bytes_key, bytes_same, bytes_same_iff, Lacks, load, delete, load-delete_self, ℤ, In, All,
  Bool-cases,
}
use vectory.Shard.{Shard, IndexManifest, unique_shard_key, generate_unique_shards, validate}
use vectory.Config.Paths.{revision_commit_path, parse_index_name-revision_commit_path}
use vectory.Index
use vectory.Index.{Index}
use vectory.Cluster.Watch.{EventKind}
use vectory.Manager.{
  IndexManager, Tools, delete_loaded, delete_shards, delete_manifest, delete_index,
}
use vectory.Manager.Rebalance.Steps.{delete_loaded-Leaves, delete_loaded-none}
use vectory.Manager.Rebalance.Steps.{bind_some}
use vectory.Manager.Revision.{Etcd, Membership}
use vectory.Manager.Revision.Commit.{Serves, HasStaged, commit_index-Serves}
use vectory.Manager.Start.{
  Decoder, zero_manifest, manifest_event, handle_manifest, commit_named, handle_commit,
}

same_manifests :
    (k : Bytes) (i j : IndexManager) (o : Option Index)
    → delete_loaded k i o ≡ some j
    → j.index_manifests ≡ i.index_manifests
unfolding delete_loaded
same_manifests k i j none q =
    let same : i ≡ j = cc in ap (λ (x : IndexManager). x.index_manifests) (sym same)
same_manifests k i j (some x) q =
    let (n, _, r) = bind_some (Index.delete x i.native) _ j q in
    let same : record i { engine_store = delete k i.engine_store; native = n } ≡ j = cc in
    ap (λ (x : IndexManager). x.index_manifests) (sym same)

one_keeps_gone :
    (k l : Bytes) (i j : IndexManager)
    → load l i.engine_store ≡ none
    → delete_loaded k i (load k i.engine_store) ≡ some j
    → load l j.engine_store ≡ none
one_keeps_gone k l i j h q = elim (Bool-cases (bytes_same k l)) [
  | inl e ↦
      subst (λ x. load x j.engine_store ≡ none) ((bytes_same_iff k l).0 e)
        (delete_loaded-none k i j _ refl q)
  | inr e ↦ (delete_loaded-Leaves k i j _ q).others l e ∙ h
]

all_keep_gone :
    (ss : List Shard) (l : Bytes) (i j : IndexManager)
    → load l i.engine_store ≡ none
    → delete_shards ss i ≡ some j
    → load l j.engine_store ≡ none
unfolding delete_shards
all_keep_gone [] l i j h q =
    let same : i ≡ j = cc in subst (λ (x : IndexManager). load l x.engine_store ≡ none) same h
all_keep_gone (s ∷ ss) l i j h q =
    let (d, first, rest) =
      bind_some (delete_loaded (unique_shard_key s) i (load (unique_shard_key s) i.engine_store)) _
        j q in
    all_keep_gone ss l d j (one_keeps_gone (unique_shard_key s) l i d h first) rest

all_gone :
    (ss : List Shard) (s : Shard) (i j : IndexManager)
    → delete_shards ss i ≡ some j
    → In s ss
    → load (unique_shard_key s) j.engine_store ≡ none
unfolding delete_shards
all_gone [] s i j q w = elim w [ ]
all_gone (x ∷ ss) s i j q w =
    let (d, first, rest) =
      bind_some (delete_loaded (unique_shard_key x) i (load (unique_shard_key x) i.engine_store)) _
        j q in
    elim w [
      | inl e ↦
          all_keep_gone ss (unique_shard_key s) d j
            (subst (λ y. load (unique_shard_key y) d.engine_store ≡ none) e
              (delete_loaded-none (unique_shard_key x) i d _ refl first))
            rest
      | inr v ↦ all_gone ss s d j rest v
    ]

-- Which shards are not touched, and that the manifests are not.
others_stay :
    (ss : List Shard) (l : Bytes) (i j : IndexManager)
    → All (λ s. bytes_same (unique_shard_key s) l ≡ false) ss
    → delete_shards ss i ≡ some j
    → (load l j.engine_store ≡ load l i.engine_store) × (j.index_manifests ≡ i.index_manifests)
unfolding delete_shards
others_stay [] l i j h q =
    let same : i ≡ j = cc in
    (
      ap (λ (x : IndexManager). load l x.engine_store) (sym same),
      ap (λ (x : IndexManager). x.index_manifests) (sym same),
    )
others_stay (s ∷ ss) l i j (h, hs) q =
    let (d, first, rest) =
      bind_some (delete_loaded (unique_shard_key s) i (load (unique_shard_key s) i.engine_store)) _
        j q in
    let (a, b) = others_stay ss l d j hs rest in
    (
      a ∙ (delete_loaded-Leaves (unique_shard_key s) i d _ first).others l h,
      b ∙ same_manifests (unique_shard_key s) i d _ first,
    )

manifests_stay :
    (ss : List Shard) (i j : IndexManager)
    → delete_shards ss i ≡ some j
    → j.index_manifests ≡ i.index_manifests
unfolding delete_shards
manifests_stay [] i j q =
    let same : i ≡ j = cc in ap (λ (x : IndexManager). x.index_manifests) (sym same)
manifests_stay (s ∷ ss) i j q =
    let (d, first, rest) =
      bind_some (delete_loaded (unique_shard_key s) i (load (unique_shard_key s) i.engine_store)) _
        j q in
    manifests_stay ss d j rest ∙ same_manifests (unique_shard_key s) i d _ first

abbrev without : Bytes → IndexManager → IndexManager
without name i = record i { index_manifests = delete name i.index_manifests }

-- `deleteIndex` of an index that is known takes its manifest out and each of its shards, and leaves
-- every other key of the store as it was.
pub delete_index-removes :
    (name l : Bytes) (i j : IndexManager) (m : IndexManifest) (ss : List Shard) (s : Shard)
    → load name i.index_manifests ≡ some m
    → generate_unique_shards m ≡ some ss
    → delete_index name i ≡ some j
    → In s ss
    → All (λ x. bytes_same (unique_shard_key x) l ≡ false) ss
    → (load (unique_shard_key s) j.engine_store ≡ none)
      × (load name j.index_manifests ≡ none)
      × (load l j.engine_store ≡ load l i.engine_store)
unfolding delete_index delete_manifest
delete_index-removes name l i j m ss s k g q w h =
    let run : delete_shards ss (without name i) ≡ some j = simp (k, g) at q in
    (
      all_gone ss s (without name i) j run w,
      ap (load name) (manifests_stay ss (without name i) j run)
          ∙ load-delete_self name i.index_manifests,
      (others_stay ss l (without name i) j h run).0,
    )

-- The event of a deleted manifest has no value, from which YAML makes the empty manifest. So
-- nothing is deleted, unless there is an index whose name is empty.
pub handle_manifest-keeps_deleted :
    (t : Tools) (owns : Option (Bytes → Bool)) (yaml : Decoder IndexManifest) (i : IndexManager)
    → (yaml [] zero_manifest).0 ≡ zero_manifest
    → load [] i.index_manifests ≡ none
    → handle_manifest t owns yaml EventKind.deleted [] i ≡ some i
unfolding handle_manifest manifest_event delete_index delete_manifest validate
handle_manifest-keeps_deleted t owns yaml i z h = rw (z, h) refl

-- The event that the commit key of an index was written with a revision makes every shard of the
-- index that is here and has that revision staged serve it, if the name is not empty and has no slash.
pub handle_commit-Serves :
    (c : Option Membership) (v : EventKind) (name : Bytes) (r : ℤ) (i j : IndexManager) (e d : Etcd)
    (m : IndexManifest) (ss : List Shard) (s : Shard) (h : ℕ)
    → v ≢ EventKind.deleted
    → name ≢ []
    → Lacks b'/' name
    → load name i.index_manifests ≡ some m
    → generate_unique_shards m ≡ some ss
    → In s ss
    → HasStaged (unique_shard_key s) h r i
    → handle_commit c v (revision_commit_path e.root name) (some r) i e ≡ some (j, d)
    → Serves (unique_shard_key s) h r j
unfolding handle_commit commit_named
handle_commit-Serves c v [] r i j e d m ss s h x n k l g w a q = absurd (n refl)
handle_commit-Serves c EventKind.deleted (b ∷ name) r i j e d m ss s h x n k l g w a q =
    absurd (x refl)
handle_commit-Serves c EventKind.create (b ∷ name) r i j e d m ss s h x n k l g w a q =
    commit_index-Serves c (b ∷ name) r i j e d m ss s h l g w a
      (rw (parse_index_name-revision_commit_path e.root (b ∷ name) k) at q)
handle_commit-Serves c EventKind.modify (b ∷ name) r i j e d m ss s h x n k l g w a q =
    commit_index-Serves c (b ∷ name) r i j e d m ss s h l g w a
      (rw (parse_index_name-revision_commit_path e.root (b ∷ name) k) at q)
