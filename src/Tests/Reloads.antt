-- ===== src/Tests/Reloads.antt =====
-- A two-phase reload of an index with one shard of one replica, on the node that owns it.
use vectory.Base.{
  ◌≡◌, ◌⊎◌, refl, inl, [], ◌∷◌, none, some, codes, load, store, delete, bytes_key, split, pos, itoa,
  ◌*ℤ◌, split_two, In, inr, if◌then◌else◌, bytes_same, Bytes, sym, subst, ap, ◌∙◌, Option, ℤ, Lacks,
}
use vectory.Status.{NodeStatus}
use vectory.Shard.{
  IndexManifest, IndexType, unique_shard_key, generate_shards, generate_unique_shards, shard_grid,
  capacity, count_up, Shard, shard_key,
}
use vectory.Config.Paths.{
  revision_ready_path_prefix, revision_ready_path, revision_commit_path,
  parse_index_name_from_commit_key, revision_commit_path_prefix,
}
use vectory.Faiss.{commit_staged}
use vectory.Index.{faiss}
use vectory.Manager.{IndexManager, cluster}
use vectory.Manager.Revision.{
  Etcd, Membership, nodes_owning_index, last_part, ready_nodes, all_ready, check_and_commit,
  commit_shards, commit_index,
}
use vectory.Manager.Revision.Ready.{IsReady, check_and_commit-safe}
use vectory.Manager.Revision.Commit.{Serves, HasStaged}
use vectory.Tests.Data.{books, books_meta, first_shard, second_shard, staged, two_open}
use vectory.Manager.Start.{handle_commit}
use vectory.Manager.Start.Events.{handle_commit-Serves}
use vectory.Cluster.Watch.{EventKind}
use vectory.Manager.Revision.Committing.{check_and_commit-commits}
use vectory.Manager.Revision.Signals.{HasReadyKeys, Signals}

abbrev small : IndexManifest
small = record books {
  meta = record books_meta { kind = IndexType.faiss; shards = pos 1; replicas = pos 1 };
}

abbrev node : IndexManager
node = record {
  engine_store = (codes "b:0", faiss staged) ∷ [];
  index_manifests = (codes "b", small) ∷ [];
  pending_shards = [];
  mode = cluster;
  status = record { current = NodeStatus.healthy; sent = [] };
  native = two_open;
}

abbrev owns_all : Membership
owns_all = record { node_id = codes "a"; owner_node = λ k. codes "a" }

abbrev etcd : Etcd
etcd = record {
  root = codes "/v";
  keys = (codes "/v/revision/b/ready/a", some (pos 2)) ∷ [];
  get_error = none;
  put_error = λ k. none;
}

-- With the commit key.
abbrev committed : Etcd
committed = record etcd {
  keys =
      (codes "/v/revision/b/ready/a", some (pos 2))
      ∷ (codes "/v/revision/b/commit", some (pos 2))
      ∷ [];
}

manifest_there : load (codes "b") node.index_manifests ≡ some small
unfolding load
manifest_there = refl

all_shards : generate_shards small ≡ some (first_shard ∷ [])
unfolding generate_shards shard_grid capacity ◌*ℤ◌ count_up
all_shards = refl

unique_shards : generate_unique_shards small ≡ some (first_shard ∷ [])
unfolding generate_unique_shards capacity ◌*ℤ◌ count_up
unique_shards = refl

commits : check_and_commit (some owns_all) node (codes "b") (pos 2) etcd ≡ some (committed, none)
unfolding check_and_commit nodes_owning_index generate_shards shard_grid capacity ◌*ℤ◌ count_up
    ready_nodes last_part split all_ready load store revision_ready_path_prefix revision_commit_path
commits = refl

check_and_commit-safe_example :
    (committed ≡ etcd)
    ⊎ IsReady (revision_ready_path_prefix (codes "/v") (codes "b")) (codes "a") (pos 2) etcd.keys
check_and_commit-safe_example =
    check_and_commit-safe owns_all node (codes "b") (pos 2) etcd committed none small
      (first_shard ∷ []) first_shard manifest_there all_shards (inl refl) (λ e. absurd (cc)) commits

-- Handle 7 serves at revision 2, and handle 3 is freed.
abbrev node_after : IndexManager
node_after = record node {
  engine_store =
      (
        codes "b:0",
        faiss (record staged {
          index = some 7;
          revision = pos 2;
          staged_index = none;
          staged_revision = pos 0;
        }),
      )
      ∷ [];
  native = record two_open { freed = 3 ∷ [] };
}

abbrev cleared : Etcd
cleared = record etcd { keys = (codes "/v/revision/b/commit", some (pos 2)) ∷ [] }

committed_here :
    handle_commit
      (some owns_all)
      EventKind.create
      (revision_commit_path (codes "/v") (codes "b"))
      (some (pos 2))
      node
      committed
    ≡ some (node_after, cleared)
unfolding handle_commit parse_index_name_from_commit_key revision_commit_path_prefix split_two
    revision_commit_path commit_index generate_unique_shards capacity ◌*ℤ◌ count_up commit_shards
    commit_staged load store delete unique_shard_key itoa revision_ready_path
    revision_ready_path_prefix
committed_here = refl

has_staged : HasStaged (unique_shard_key first_shard) 7 (pos 2) node
unfolding unique_shard_key itoa load
has_staged = (staged, refl, refl, refl)

handle_commit-Serves_example : Serves (unique_shard_key first_shard) 7 (pos 2) node_after
handle_commit-Serves_example =
    handle_commit-Serves (some owns_all) EventKind.create (codes "b") (pos 2) node node_after
      committed cleared small (first_shard ∷ []) first_shard 7 (λ e. absurd (cc)) (λ e. absurd (cc))
      (λ e. absurd (cc), tt) manifest_there unique_shards (inl refl) has_staged committed_here

-- Two shards of one replica each, that two nodes own.
abbrev pair : IndexManifest
pair = record books { meta = record books_meta { replicas = pos 1 } }

abbrev knows_pair : IndexManager
knows_pair = record node { index_manifests = (codes "b", pair) ∷ [] }

abbrev owns_one_each : Membership
owns_one_each = record {
  node_id = codes "a";
  owner_node = λ k. if bytes_same k (codes "b:0:0") then codes "a" else codes "bb";
}

abbrev both_ready : Etcd
both_ready = record etcd {
  keys =
      (revision_ready_path (codes "/v") (codes "b") (codes "a"), some (pos 2))
      ∷ (revision_ready_path (codes "/v") (codes "b") (codes "bb"), some (pos 2))
      ∷ [];
}

pair_there : load (codes "b") knows_pair.index_manifests ≡ some pair
unfolding load
pair_there = refl

pair_shards : generate_shards pair ≡ some (first_shard ∷ second_shard ∷ [])
unfolding generate_shards shard_grid capacity ◌*ℤ◌ count_up
pair_shards = refl

first_owner : owns_one_each.owner_node (shard_key first_shard) ≡ codes "a"
unfolding shard_key itoa
first_owner = refl

second_owner : owns_one_each.owner_node (shard_key second_shard) ≡ codes "bb"
unfolding shard_key itoa
second_owner = refl

of_both :
    (P : Bytes → Type 0)
    → P (codes "a")
    → P (codes "bb")
    → (t : Shard) → In t (first_shard ∷ second_shard ∷ [])
    → P (owns_one_each.owner_node (shard_key t))
of_both P a b t (inl e) =
    subst (λ x. P (owns_one_each.owner_node (shard_key x))) e (subst P (sym first_owner) a)
of_both P a b t (inr (inl e)) =
    subst (λ x. P (owns_one_each.owner_node (shard_key x))) e (subst P (sym second_owner) b)
of_both P a b t (inr (inr z)) = elim z [ ]

two_keys-HasReadyKeys :
    (root name a b : Bytes) (x y : Option ℤ)
    → Lacks b'/' a
    → Lacks b'/' b
    → HasReadyKeys root name
        ((revision_ready_path root name a, x) ∷ (revision_ready_path root name b, y) ∷ [])
two_keys-HasReadyKeys root name a b x y la lb key v (inl e) p =
    (a, la, ap (λ (x : Bytes × Option ℤ). x.0) (sym e))
two_keys-HasReadyKeys root name a b x y la lb key v (inr (inl e)) p =
    (b, lb, ap (λ (x : Bytes × Option ℤ). x.0) (sym e))
two_keys-HasReadyKeys root name a b x y la lb key v (inr (inr z)) p = elim z [ ]

a_plain : Lacks b'/' (codes "a")
a_plain = (λ q. absurd (cc), tt)

bb_plain : Lacks b'/' (codes "bb")
bb_plain = (λ q. absurd (cc), (λ q. absurd (cc), tt))

at_two : (key : Bytes) (v : Option ℤ) → In (key, v) both_ready.keys → v ≡ some (pos 2)
at_two key v (inl e) = ap (λ (x : Bytes × Option ℤ). x.1) (sym e)
at_two key v (inr (inl e)) = ap (λ (x : Bytes × Option ℤ). x.1) (sym e)
at_two key v (inr (inr z)) = elim z [ ]

a-Signals : Signals (codes "/v") (codes "b") (pos 2) (codes "a") both_ready.keys
a-Signals = (inl refl, λ v w. at_two _ v w)

bb-Signals : Signals (codes "/v") (codes "b") (pos 2) (codes "bb") both_ready.keys
bb-Signals = (inr (inl refl), λ v w. at_two _ v w)

check_and_commit-commits_example :
    (d : Etcd) × (check_and_commit (some owns_one_each) knows_pair (codes "b") (pos 2) both_ready
      ≡ some (d, none))
    × (load (revision_commit_path (codes "/v") (codes "b")) d.keys ≡ some (some (pos 2)))
check_and_commit-commits_example =
    check_and_commit-commits owns_one_each knows_pair (codes "b") (pos 2) both_ready pair
      (first_shard ∷ second_shard ∷ []) first_shard pair_there pair_shards (inl refl)
      (λ e. let z : codes "a" ≡ [] = sym first_owner ∙ e in absurd (cc))
      (two_keys-HasReadyKeys (codes "/v") (codes "b") (codes "a") (codes "bb") _ _ a_plain bb_plain)
      (of_both (Lacks b'/') a_plain bb_plain)
      (of_both (λ o. Signals (codes "/v") (codes "b") (pos 2) o both_ready.keys) a-Signals
        bb-Signals)
      refl refl
