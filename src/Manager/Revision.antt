-- ===== src/Manager/Revision.antt =====
-- The two-phase reload of internal/engine/manager.go: `nodesOwningIndex`, `signalReady`,
-- `checkAndCommit` and `commitIndex`. The keys of etcd are a map; the payload of a key is its
-- revision, or `none` if JSON does not read it as one.
pub mod Ready
pub mod Signals
pub mod Commit
pub mod Committing
use vectory.Base.{
  ℕ, ◌≡◌, refl, Bool, true, false, not, List, [], ◌∷◌, ◌++◌, Option, none, some, Bytes, bytes_key,
  codes, is_empty, bytes_same, has_prefix, split, Map, load, store, delete, ℤ, pos, same_ℤ, ◌>>=◌,
  all, any, if◌then◌else◌,
}
use vectory.Errors.{Err, plain, message, Result, ok, err}
use vectory.Shard.{
  Shard, IndexManifest, shard_key, unique_shard_key, generate_shards, generate_unique_shards,
}
use vectory.Config.Paths.{revision_ready_path_prefix, revision_ready_path, revision_commit_path}
use vectory.Faiss.{FaissIndex, Native, commit_staged}
use vectory.Index.{Index, faiss, mock}
use vectory.Manager.{IndexManager}

-- What etcd holds under the root, and the errors with which it answers, if it does.
pub record Etcd : Type 0 where
  pub root : Bytes
  pub keys : Map Bytes (Option ℤ)
  pub get_error : Option Err
  pub put_error : Bytes → Option Err

-- The cluster manager, as far as it is used: its node and GetOwnerNode.
pub record Membership : Type 0 where
  pub node_id : Bytes
  pub owner_node : Bytes → Bytes

-- One owner more; no owner counts twice, and no owner is no node.
add_owner : Bytes → List Bytes → List Bytes
add_owner o os = if is_empty o then os else if any (bytes_same o) os then os else o ∷ os

pub owners_of : Membership → List Shard → List Bytes
unfolding add_owner
owners_of c [] = []
owners_of c (s ∷ ss) = add_owner (c.owner_node (shard_key s)) (owners_of c ss)

owners_in : Option Membership → Option IndexManifest → Option (List Bytes)
unfolding owners_of
owners_in c none = some []
owners_in none (some m) = some []
owners_in (some c) (some m) = do ss ← generate_shards m; some (owners_of c ss)

-- `nodesOwningIndex`; `none` is a panic.
unfoldable pub nodes_owning_index : Option Membership → IndexManager → Bytes → Option (List Bytes)
unfolding owners_in
nodes_owning_index c i name = owners_in c (load name i.index_manifests)

unfoldable pub last_part : List Bytes → Bytes
last_part [] = []
last_part (p ∷ []) = p
last_part (p ∷ q ∷ ps) = last_part (q ∷ ps)

note_ready : Bytes → Option ℤ → Map Bytes ℤ → Map Bytes ℤ
unfolding last_part
note_ready key none m = m
note_ready key (some r) m = store (last_part (split key b'/')) r m

-- The ready keys, by node; a later key takes the place of an earlier one.
unfoldable pub ready_nodes : Bytes → Map Bytes (Option ℤ) → Map Bytes ℤ → Map Bytes ℤ
unfolding note_ready
ready_nodes folder [] m = m
ready_nodes folder ((key, r) ∷ kvs) m =
    ready_nodes folder kvs (if has_prefix key folder then note_ready key r m else m)

is_at : ℤ → Option ℤ → Bool
is_at revision none = false
is_at revision (some r) = same_ℤ r revision

unfoldable pub all_ready : Map Bytes ℤ → ℤ → List Bytes → Bool
unfolding is_at
all_ready ready revision = all (λ o. is_at revision (load o ready))

put_key : Etcd → Bytes → ℤ → Option Err → Etcd × Option Err
put_key e key r (some x) = (e, some x)
put_key e key r none = (record e { keys = store key (some r) e.keys }, none)

write_commit : Etcd → Bytes → ℤ → Etcd × Option Err → Etcd × Option Err
write_commit e name r (d, none) = (d, none)
write_commit e name r (d, some x) = (d, some (plain (codes "write commit key: " ++ message x)))

commit_if_ready : Etcd → Bytes → ℤ → List Bytes → Option Err → Etcd × Option Err
unfolding put_key write_commit ready_nodes all_ready
commit_if_ready e name r owners (some x) =
    (e, some (plain (codes "read ready keys: " ++ message x)))
commit_if_ready e name r owners none =
    let key = revision_commit_path e.root name in
    let ready = ready_nodes (revision_ready_path_prefix e.root name) e.keys [] in
    if all_ready ready r owners
    then write_commit e name r (put_key e key r (e.put_error key))
    else (e, none)

commit_for : Etcd → Bytes → ℤ → List Bytes → Etcd × Option Err
unfolding commit_if_ready
commit_for e name r [] = (e, none)
commit_for e name r (o ∷ os) = commit_if_ready e name r (o ∷ os) e.get_error

-- `checkAndCommit`; `none` is a panic.
unfoldable pub check_and_commit :
    Option Membership → IndexManager → Bytes → ℤ → Etcd → Option (Etcd × Option Err)
unfolding commit_for
check_and_commit c i name r e = do
  owners ← nodes_owning_index c i name
  some (commit_for e name r owners)

-- Shards that are not here, and indexes that do not stage, do not hold up the signal.
staged_or_absent : ℤ → Option Index → Bool
staged_or_absent r none = true
staged_or_absent r (some (mock m)) = true
staged_or_absent r (some (faiss f)) = same_ℤ f.staged_revision r

pub all_staged : IndexManager → ℤ → List Shard → Bool
unfolding staged_or_absent
all_staged i r = all (λ s. staged_or_absent r (load (unique_shard_key s) i.engine_store))

put_ready : Membership → IndexManager → Bytes → ℤ → Etcd × Option Err → Option (Etcd × Option Err)
put_ready c i name r (e, some x) = some (e, some (plain (codes "write ready key: " ++ message x)))
put_ready c i name r (e, none) = check_and_commit (some c) i name r e

signal_for :
    Membership → IndexManager → Bytes → ℤ → Etcd → Option IndexManifest → Option (Etcd × Option Err)
unfolding put_ready put_key all_staged
signal_for c i name r e none =
    some (e, some (plain (codes "index " ++ (name ++ codes " not found in manifests"))))
signal_for c i name r e (some m) = do
  ss ← generate_unique_shards m
  let key = revision_ready_path e.root name c.node_id
  let signalled = put_ready c i name r (put_key e key r (e.put_error key))
  if all_staged i r ss then signalled else some (e, none)

-- `signalReady`; `none` is a panic.
unfoldable pub signal_ready :
    Membership → IndexManager → Bytes → ℤ → Etcd → Option (Etcd × Option Err)
unfolding signal_for
signal_ready c i name r e = signal_for c i name r e (load name i.index_manifests)

commit_loaded : ℤ → Bytes → IndexManager → Option Index → IndexManager
commit_loaded r key i none = i
commit_loaded r key i (some (mock m)) = i
commit_loaded r key i (some (faiss f)) =
    let (g, n, _) = commit_staged r f i.native in
    record i { engine_store = store key (faiss g) i.engine_store; native = n }

unfoldable pub commit_shards : ℤ → List Shard → IndexManager → IndexManager
unfolding commit_loaded
commit_shards r [] i = i
commit_shards r (s ∷ ss) i =
    commit_shards r ss
      (commit_loaded r (unique_shard_key s) i (load (unique_shard_key s) i.engine_store))

clear_ready : Option Membership → Bytes → Etcd → Etcd
clear_ready none name e = e
clear_ready (some c) name e = record e {
  keys = delete (revision_ready_path e.root name c.node_id) e.keys;
}

commit_manifest :
    Option Membership
    → Bytes
    → ℤ
    → IndexManager
    → Etcd
    → Option IndexManifest
    → Option (IndexManager × Etcd)
unfolding clear_ready
commit_manifest c name r i e none = some (i, e)
commit_manifest c name r i e (some m) = do
  ss ← generate_unique_shards m
  some (commit_shards r ss i, clear_ready c name e)

-- `commitIndex`; `none` is a panic. A failure to delete the ready key is ignored by the source; the
-- key is taken to be deleted.
unfoldable pub commit_index :
    Option Membership → Bytes → ℤ → IndexManager → Etcd → Option (IndexManager × Etcd)
unfolding commit_manifest
commit_index c name r i e = commit_manifest c name r i e (load name i.index_manifests)
