-- ===== src/Manager/Revision/Ready.antt =====
-- When a node signals that it is ready, and when a commit is written.
use vectory.Base.{
  ◌≡◌, ◌≢◌, ◌⊎◌, inl, inr, refl, sym, ap, ◌∙◌, subst, true, List, [], ◌∷◌, Option, none, some,
  Bytes, bytes_key, bytes_same, bytes_same_iff, has_prefix, split, Map, load, load-store, ℤ,
  same_ℤ_iff, In, any, all-In, In-of_any, Bool-cases,
}
use vectory.Errors.{Err}
use vectory.Shard.{
  Shard, IndexManifest, shard_key, unique_shard_key, generate_shards, generate_unique_shards,
}
use vectory.Config.Paths.{revision_ready_path_prefix}
use vectory.Faiss.{FaissIndex}
use vectory.Index.{faiss}
use vectory.Manager.{IndexManager}
use vectory.Manager.Revision.{
  Etcd, Membership, add_owner, owners_of, owners_in, nodes_owning_index, last_part, note_ready,
  ready_nodes, is_at, all_ready, commit_if_ready, commit_for, check_and_commit, staged_or_absent,
  all_staged, signal_for, signal_ready,
}

-- A ready key of a node at a revision is among the keys.
abbrev pub IsReady : Bytes → Bytes → ℤ → Map Bytes (Option ℤ) → Type 0
IsReady folder node r kvs =
    (key : Bytes) × In (key, some r) kvs
    × (has_prefix key folder ≡ true)
    × (last_part (split key b'/') ≡ node)

IsReady-cons :
    (folder node : Bytes) (r : ℤ) (e : Bytes × Option ℤ) (kvs : Map Bytes (Option ℤ))
    → IsReady folder node r kvs ⊎ (⊥)
    → IsReady folder node r (e ∷ kvs)
IsReady-cons folder node r e kvs (inl (k, w, p, q)) = (k, inr w, p, q)
IsReady-cons folder node r e kvs (inr z) = absurd z

noted :
    (folder node key : Bytes) (r : ℤ) (o : Option ℤ) (m : Map Bytes ℤ) (kvs : Map Bytes (Option ℤ))
    → has_prefix key folder ≡ true
    → load node (note_ready key o m) ≡ some r
    → IsReady folder node r ((key, o) ∷ kvs) ⊎ (load node m ≡ some r)
unfolding note_ready
noted folder node key r none m kvs p h = inr h
noted folder node key r (some v) m kvs p h =
    elim (Bool-cases (bytes_same (last_part (split key b'/')) node)) [
      | inl q ↦
          let z : some v ≡ some r =
            sym (load-store (last_part (split key b'/')) node v m ∙ rw q) ∙ h in
          let v-r : v ≡ r = cc in
          inl (key, inl (λ i. (key, some (v-r i))), p, (bytes_same_iff _ node).0 q)
      | inr q ↦ inr (sym (load-store (last_part (split key b'/')) node v m ∙ rw q) ∙ h)
    ]

-- What `checkAndCommit` reads of the ready keys is there.
ready_nodes-IsReady :
    (folder node : Bytes) (r : ℤ) (kvs : Map Bytes (Option ℤ)) (m : Map Bytes ℤ)
    → load node (ready_nodes folder kvs m) ≡ some r
    → IsReady folder node r kvs ⊎ (load node m ≡ some r)
unfolding ready_nodes
ready_nodes-IsReady folder node r [] m h = inr h
ready_nodes-IsReady folder node r ((key, o) ∷ kvs) m h = elim (Bool-cases (has_prefix key folder)) [
  | inl p ↦
      elim (ready_nodes-IsReady folder node r kvs (note_ready key o m) (rw (p, ready_nodes) at h)) [
        | inl w ↦ inl (IsReady-cons folder node r _ kvs (inl w))
        | inr w ↦ noted folder node key r o m kvs p w
      ]
  | inr p ↦ elim (ready_nodes-IsReady folder node r kvs m (rw (p, ready_nodes) at h)) [
    | inl w ↦ inl (IsReady-cons folder node r _ kvs (inl w))
    | inr w ↦ inr w
  ]
]

is_at-some : (r : ℤ) (o : Option ℤ) → is_at r o ≡ true → o ≡ some r
unfolding is_at
is_at-some r none h = absurd (cc)
is_at-some r (some v) h = ap some ((same_ℤ_iff v r).0 h)

all_ready-load :
    (ready : Map Bytes ℤ) (r : ℤ) (owners : List Bytes) (o : Bytes)
    → all_ready ready r owners ≡ true
    → In o owners
    → load o ready ≡ some r
unfolding all_ready
all_ready-load ready r owners o h w =
    is_at-some r (load o ready) (all-In (λ o. is_at r (load o ready)) o owners h w)

add_owner-In : (o : Bytes) (os : List Bytes) → o ≢ [] → In o (add_owner o os)
unfolding add_owner
add_owner-In [] os n = absurd (n refl)
add_owner-In (b ∷ o) os n = elim (Bool-cases (any (bytes_same (b ∷ o)) os)) [
  | inl e ↦
      let (a, w, q) = In-of_any (bytes_same (b ∷ o)) os e in
      rw e (subst (λ x. In x os) (sym ((bytes_same_iff (b ∷ o) a).0 q)) w)
  | inr e ↦ rw e (inl refl)
]

add_owner-keeps : (o p : Bytes) (os : List Bytes) → In p os → In p (add_owner o os)
unfolding add_owner
add_owner-keeps [] p os w = w
add_owner-keeps (b ∷ o) p os w = elim (Bool-cases (any (bytes_same (b ∷ o)) os)) [
  | inl e ↦ rw e w
  | inr e ↦ rw e (inr w)
]

pub owners_of-In :
    (c : Membership) (ss : List Shard) (s : Shard)
    → In s ss
    → c.owner_node (shard_key s) ≢ []
    → In (c.owner_node (shard_key s)) (owners_of c ss)
unfolding owners_of
owners_of-In c [] s w n = elim w [ ]
owners_of-In c (x ∷ ss) s (inl e) n =
    subst
      (λ y.
        In (c.owner_node (shard_key s)) (add_owner (c.owner_node (shard_key y)) (owners_of c ss)))
      (sym e) (add_owner-In (c.owner_node (shard_key s)) (owners_of c ss) n)
owners_of-In c (x ∷ ss) s (inr w) n =
    add_owner-keeps (c.owner_node (shard_key x)) _ (owners_of c ss) (owners_of-In c ss s w n)

nothing_noted : (o : Bytes) (r : ℤ) → load o [] ≡ some r → ⊥
unfolding load
nothing_noted o r v = absurd (cc)

commit_if_ready-safe :
    (e : Etcd) (name : Bytes) (r : ℤ) (owners : List Bytes) (o : Bytes) (g : Option Err)
    → In o owners
    → ((commit_if_ready e name r owners g).0 ≡ e)
      ⊎ IsReady (revision_ready_path_prefix e.root name) o r e.keys
unfolding commit_if_ready
commit_if_ready-safe e name r owners o (some x) w = inl refl
commit_if_ready-safe e name r owners o none w =
    let folder = revision_ready_path_prefix e.root name in
    elim (Bool-cases (all_ready (ready_nodes folder e.keys []) r owners)) [
      | inr q ↦ inl (rw q)
      | inl q ↦ elim (ready_nodes-IsReady folder o r e.keys [] (all_ready-load _ r owners o q w)) [
        | inl v ↦ inr v
        | inr v ↦ absurd (nothing_noted o r v)
      ]
    ]

commit_for-safe :
    (e : Etcd) (name : Bytes) (r : ℤ) (owners : List Bytes) (o : Bytes)
    → In o owners
    → ((commit_for e name r owners).0 ≡ e)
      ⊎ IsReady (revision_ready_path_prefix e.root name) o r e.keys
unfolding commit_for
commit_for-safe e name r [] o w = inl refl
commit_for-safe e name r (p ∷ ps) o w = commit_if_ready-safe e name r (p ∷ ps) o e.get_error w

-- A commit is written only if every node that owns a replica of a shard of the index has a ready
-- key at that very revision; otherwise etcd is left as it was.
pub check_and_commit-safe :
    (c : Membership) (i : IndexManager) (name : Bytes) (r : ℤ) (e d : Etcd) (x : Option Err)
    (m : IndexManifest) (ss : List Shard) (s : Shard)
    → load name i.index_manifests ≡ some m
    → generate_shards m ≡ some ss
    → In s ss
    → c.owner_node (shard_key s) ≢ []
    → check_and_commit (some c) i name r e ≡ some (d, x)
    → (d ≡ e)
      ⊎ IsReady (revision_ready_path_prefix e.root name) (c.owner_node (shard_key s)) r e.keys
unfolding check_and_commit nodes_owning_index owners_in
check_and_commit-safe c i name r e d x m ss s l g w n q =
    let whole : some (commit_for e name r (owners_of c ss)) ≡ some (d, x) = simp (l, g) at q in
    let same : commit_for e name r (owners_of c ss) ≡ (d, x) = cc in
    subst
      (λ (p : Etcd × Option Err).
        (p.0 ≡ e)
        ⊎ IsReady (revision_ready_path_prefix e.root name) (c.owner_node (shard_key s)) r e.keys)
      same (commit_for-safe e name r (owners_of c ss) _ (owners_of-In c ss s w n))

all_staged-at :
    (i : IndexManager) (r : ℤ) (ss : List Shard) (s : Shard) (f : FaissIndex)
    → all_staged i r ss ≡ true
    → In s ss
    → load (unique_shard_key s) i.engine_store ≡ some (faiss f)
    → f.staged_revision ≡ r
unfolding all_staged staged_or_absent
all_staged-at i r ss s f h w l =
    let one : staged_or_absent r (load (unique_shard_key s) i.engine_store) ≡ true =
      all-In (λ s. staged_or_absent r (load (unique_shard_key s) i.engine_store)) s ss h w in
    (same_ℤ_iff f.staged_revision r).0 (rw l at one)

-- One shard of the index on this node that does not have the revision staged holds the signal up:
-- no key is written and no error is returned. So it is also with a shard that serves the revision
-- already, because it was loaded after the revision had appeared and so has nothing staged.
pub signal_ready-waits :
    (c : Membership) (i : IndexManager) (name : Bytes) (r : ℤ) (e : Etcd) (m : IndexManifest)
    (ss : List Shard) (s : Shard) (f : FaissIndex)
    → load name i.index_manifests ≡ some m
    → generate_unique_shards m ≡ some ss
    → In s ss
    → load (unique_shard_key s) i.engine_store ≡ some (faiss f)
    → f.staged_revision ≢ r
    → signal_ready c i name r e ≡ some (e, none)
unfolding signal_ready signal_for
signal_ready-waits c i name r e m ss s f l g w k n = elim (Bool-cases (all_staged i r ss)) [
  | inl h ↦ absurd (n (all_staged-at i r ss s f h w k))
  | inr h ↦ simp (l, g, h)
]
