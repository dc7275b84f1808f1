-- ===== src/Manager/Revision/Committing.antt =====
-- That a commit is written once every owner is ready.
use vectory.Base.{
  ◌≡◌, ◌≢◌, inl, inr, refl, sym, ap, subst, true, List, [], ◌∷◌, Option, none, some, Bytes,
  bytes_key, bytes_same, Map, load, load-store_self, ℤ, same_ℤ_iff, In, any, all_of, Bool-cases,
  ◌⊎◌, Lacks,
}
use vectory.Shard.{Shard, IndexManifest, shard_key, generate_shards}
use vectory.Config.Paths.{revision_ready_path_prefix, revision_commit_path}
use vectory.Errors.{Err}
use vectory.Manager.{IndexManager}
use vectory.Manager.Revision.{
  Etcd, Membership, add_owner, owners_of, owners_in, nodes_owning_index, ready_nodes, is_at,
  all_ready, put_key, write_commit, commit_if_ready, commit_for, check_and_commit,
}
use vectory.Manager.Revision.Ready.{owners_of-In}
use vectory.Manager.Revision.Signals.{HasReadyKeys, Signals, ready_nodes-Signals}

add_owner-from : (o p : Bytes) (os : List Bytes) → In p (add_owner o os) → (o ≡ p) ⊎ In p os
unfolding add_owner
add_owner-from [] p os w = inr w
add_owner-from (b ∷ o) p os w = elim (Bool-cases (any (bytes_same (b ∷ o)) os)) [
  | inl e ↦ inr (rw e at w)
  | inr e ↦ rw e at w
]

-- Every owner owns a replica of some shard.
owners_of-from :
    (c : Membership) (ss : List Shard) (p : Bytes)
    → In p (owners_of c ss)
    → (s : Shard) × In s ss × (c.owner_node (shard_key s) ≡ p)
unfolding owners_of
owners_of-from c [] p w = elim w [ ]
owners_of-from c (s ∷ ss) p w =
    elim (add_owner-from (c.owner_node (shard_key s)) p (owners_of c ss) w) [
      | inl e ↦ (s, inl refl, e)
      | inr v ↦ let (t, m, e) = owners_of-from c ss p v in (t, inr m, e)
    ]

all_owners_ready :
    (ready : Map Bytes ℤ) (r : ℤ) (owners : List Bytes)
    → ((o : Bytes) → In o owners → load o ready ≡ some r)
    → all_ready ready r owners ≡ true
unfolding all_ready is_at
all_owners_ready ready r owners h =
    all_of (λ o. is_at r (load o ready)) owners (λ o w. rw (h o w) ((same_ℤ_iff r r).1 refl))

-- The commit key is there, with the revision.
abbrev IsCommitted : Bytes → ℤ → Etcd × Option Err → Type 0
IsCommitted key r p = (load key p.0.keys ≡ some (some r)) × (p.1 ≡ none)

commit_if_ready-IsCommitted :
    (e : Etcd) (name : Bytes) (r : ℤ) (owners : List Bytes)
    → e.put_error (revision_commit_path e.root name) ≡ none
    → all_ready (ready_nodes (revision_ready_path_prefix e.root name) e.keys []) r owners ≡ true
    → IsCommitted (revision_commit_path e.root name) r (commit_if_ready e name r owners none)
unfolding commit_if_ready put_key write_commit
commit_if_ready-IsCommitted e name r owners p q =
    rw (q, p) (load-store_self (revision_commit_path e.root name) (some r) e.keys, refl)

commit_for-IsCommitted :
    (e : Etcd) (name : Bytes) (r : ℤ) (owners : List Bytes) (o : Bytes)
    → In o owners
    → e.get_error ≡ none
    → e.put_error (revision_commit_path e.root name) ≡ none
    → all_ready (ready_nodes (revision_ready_path_prefix e.root name) e.keys []) r owners ≡ true
    → IsCommitted (revision_commit_path e.root name) r (commit_for e name r owners)
unfolding commit_for
commit_for-IsCommitted e name r [] o w g p q = elim w [ ]
commit_for-IsCommitted e name r (x ∷ owners) o w g p q =
    subst
      (λ y.
        IsCommitted (revision_commit_path e.root name) r (commit_if_ready e name r (x ∷ owners) y))
      (sym g) (commit_if_ready-IsCommitted e name r (x ∷ owners) p q)

-- The same, with readiness as it is read.
noted_commits :
    (c : Membership) (i : IndexManager) (name : Bytes) (r : ℤ) (e : Etcd) (m : IndexManifest)
    (ss : List Shard) (s : Shard)
    → load name i.index_manifests ≡ some m
    → generate_shards m ≡ some ss
    → In s ss
    → c.owner_node (shard_key s) ≢ []
    → ((t : Shard)
        → In t ss
        → load
            (c.owner_node (shard_key t))
            (ready_nodes (revision_ready_path_prefix e.root name) e.keys [])
          ≡ some r)
    → e.get_error ≡ none
    → e.put_error (revision_commit_path e.root name) ≡ none
    → (d : Etcd) × (check_and_commit (some c) i name r e ≡ some (d, none))
      × (load (revision_commit_path e.root name) d.keys ≡ some (some r))
unfolding check_and_commit nodes_owning_index owners_in
noted_commits c i name r e m ss s l g w n ready get put =
    let own = owners_of-In c ss s w n in
    let all =
      all_owners_ready (ready_nodes (revision_ready_path_prefix e.root name) e.keys []) r
        (owners_of c ss)
        (λ o v.
          let (t, u, q) = owners_of-from c ss o v in
          subst
            (λ x. load x (ready_nodes (revision_ready_path_prefix e.root name) e.keys []) ≡ some r)
            q (ready t u)) in
    let (there, fine) = commit_for-IsCommitted e name r (owners_of c ss) _ own get put all in
    (
      (commit_for e name r (owners_of c ss)).0,
      rw (l, g) (ap (λ x. some ((commit_for e name r (owners_of c ss)).0, x)) fine),
      there,
    )

-- If the keys can be read and the commit key written, and every node that owns a replica of a shard of
-- the index, of which there is one at least, has its ready key in etcd with a revision, then the check
-- writes the commit key with that revision. The names of the owners have no slash, and under the folder
-- of the ready keys of the index there are only ready keys of nodes.
pub check_and_commit-commits :
    (c : Membership) (i : IndexManager) (name : Bytes) (r : ℤ) (e : Etcd) (m : IndexManifest)
    (ss : List Shard) (s : Shard)
    → load name i.index_manifests ≡ some m
    → generate_shards m ≡ some ss
    → In s ss
    → c.owner_node (shard_key s) ≢ []
    → HasReadyKeys e.root name e.keys
    → ((t : Shard) → In t ss → Lacks b'/' (c.owner_node (shard_key t)))
    → ((t : Shard) → In t ss → Signals e.root name r (c.owner_node (shard_key t)) e.keys)
    → e.get_error ≡ none
    → e.put_error (revision_commit_path e.root name) ≡ none
    → (d : Etcd) × (check_and_commit (some c) i name r e ≡ some (d, none))
      × (load (revision_commit_path e.root name) d.keys ≡ some (some r))
check_and_commit-commits c i name r e m ss s l g w n keys slashless signals get put =
    noted_commits c i name r e m ss s l g w n
      (λ t v.
        ready_nodes-Signals e.root name (c.owner_node (shard_key t)) r e.keys (slashless t v) keys
          (signals t v))
      get put
