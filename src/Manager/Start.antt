-- ===== src/Manager/Start.antt =====
-- How internal/engine/manager.go comes by its manifests: `InitManager`, and the handling of each
-- event of the watches that `SyncCluster` and `watchCommits` start. YAML, JSON, the file system and
-- etcd are arguments.
pub mod Loading
pub mod Loads
pub mod Complete
pub mod Events
use vectory.Base.{
  ℕ, suc, ◌+◌, ◌≡◌, refl, Bool, true, false, List, [], ◌∷◌, ◌++◌, Option, none, some, Bytes, codes,
  bytes_key, is_empty, ℤ, pos, ◌>>=◌, if◌then◌else◌, ◌==◌, ltb, ◌&&◌,
}
use vectory.Errors.{Err, plain, Result, ok, err, get_manifests_failed, no_success, partly_success}
use vectory.Status.{Status}
use vectory.Shard.{IndexManifest, IndexMeta, IndexSource, IndexType, SourceType, validate}
use vectory.Config.Paths.{local_index_path, parse_index_name_from_commit_key}
use vectory.Faiss.{Native}
use vectory.Cluster.Watch.{EventKind}
use vectory.Manager.{IndexManager, Mode, single, cluster, Tools, load_index, delete_index}
use vectory.Manager.Revision.{Etcd, Membership, commit_index}

-- A package's Unmarshal: what it makes of the destination, also when it fails.
abbrev pub Decoder : Type 0 → Type 0
Decoder A = Bytes → A → A × Option Err

or_neither : {A : Type 0} → A × Option Err → A × Option Err
or_neither (d, none) = (d, none)
or_neither (d, some e) = (d, some (plain (codes "cannot unmarshal either json and yaml")))

or_json : {A : Type 0} → Decoder A → Bytes → A × Option Err → A × Option Err
unfolding or_neither
or_json json raw (d, none) = (d, none)
or_json json raw (d, some e) = or_neither (json raw d)

-- `utils.Unmarshal`: YAML first, and JSON into the same destination if that fails.
unfoldable pub unmarshal : {A : Type 0} → Decoder A → Decoder A → Decoder A
unfolding or_json
unmarshal yaml json raw dest = or_json json raw (yaml raw dest)

-- `&IndexManifest{}`
abbrev pub zero_manifest : IndexManifest
zero_manifest = record {
  meta = record {
    name = [];
    kind = IndexType.other [];
    input_dim = pos 0;
    shards = pos 0;
    replicas = pos 0;
    c_time = pos 0;
    m_time = pos 0;
    version = [];
  };
  source = none;
  reload = none;
}

-- A manifest that cannot be read is skipped.
keep_parsed : IndexManifest × Option Err → List IndexManifest → List IndexManifest
keep_parsed (m, none) ms = m ∷ ms
keep_parsed (m, some e) ms = ms

-- The manifests that etcd holds.
unfoldable pub parse_manifests : Decoder IndexManifest → List Bytes → List IndexManifest
unfolding keep_parsed
parse_manifests read [] = []
parse_manifests read (raw ∷ raws) = keep_parsed (read raw zero_manifest) (parse_manifests read raws)

-- `os.ReadDir` of the index folder and `os.ReadFile`.
pub record Folder : Type 0 where
  pub path : Bytes
  pub names : Result (List Bytes)
  pub read_file : Bytes → Result Bytes

parse_file : Decoder IndexManifest → Result Bytes → List IndexManifest → List IndexManifest
unfolding keep_parsed
parse_file read (err e) ms = ms
parse_file read (ok raw) ms = keep_parsed (read raw zero_manifest) ms

unfoldable pub parse_files : Decoder IndexManifest → Folder → List Bytes → List IndexManifest
unfolding parse_file
parse_files read f [] = []
parse_files read f (name ∷ names) =
    parse_file read (f.read_file (local_index_path f.path name)) (parse_files read f names)

-- The manager with the three counters of `InitManager`.
pub record Sums : Type 0 where
  pub manager : IndexManager
  pub total : ℕ
  pub success : ℕ
  pub failed : ℕ

add_counts : Sums → IndexManager × Result (ℕ × ℕ) → Sums
add_counts p (i, err e) = record p { manager = i; failed = suc p.failed }
add_counts p (i, ok (t, s)) = record p { manager = i; total = p.total + t; success = p.success + s }

-- The goroutines that load the manifests, one after another; `none` is a panic of one.
unfoldable pub load_manifests :
    Tools → Option (Bytes → Bool) → List IndexManifest → Sums → Option Sums
unfolding add_counts
load_manifests t owns [] p = some p
load_manifests t owns (m ∷ ms) p = do
  r ← load_index t owns m p.manager
  load_manifests t owns ms (add_counts p r)

unfoldable pub outcome : Sums → Option Err
outcome p =
    if ltb 0 p.total && (p.success == 0)
    then some no_success
    else if ltb 0 p.total && ltb p.success p.total
    then some partly_success
    else if ltb 0 p.failed
    then some partly_success
    else none

unfoldable pub fresh : Mode → Status → Native → IndexManager
fresh mode s n = record {
  engine_store = [];
  index_manifests = [];
  pending_shards = [];
  mode = mode;
  status = s;
  native = n;
}

-- What `InitManager` is given: NeedLoad of the cluster manager, if there is one, the values under the
-- prefix of the manifests in etcd, the local folder, and the order in which the goroutines run.
pub record Sources : Type 0 where
  pub owns : Option (Bytes → Bool)
  pub stored : Result (List Bytes)
  pub folder : Folder
  pub yaml : Decoder IndexManifest
  pub json : Decoder IndexManifest
  pub order : List IndexManifest → List IndexManifest

parsed_kvs : Decoder IndexManifest → Result (List Bytes) → Result (List IndexManifest)
parsed_kvs read (err e) = err get_manifests_failed
parsed_kvs read (ok raws) = ok (parse_manifests read raws)

parsed_files : Decoder IndexManifest → Folder → Result (List Bytes) → Result (List IndexManifest)
parsed_files read f (err e) = err get_manifests_failed
parsed_files read f (ok names) = ok (parse_files read f names)

-- The two sources of manifests.
unfoldable pub collect : Sources → Mode → Result (List IndexManifest)
unfolding parsed_kvs parsed_files
collect c single = parsed_files (unmarshal c.yaml c.json) c.folder c.folder.names
collect c cluster = parsed_kvs (unmarshal c.yaml c.json) c.stored

init_loaded : Option Sums → Option (IndexManager × Option Err)
init_loaded none = none
init_loaded (some p) = some (p.manager, outcome p)

abbrev pub start_sums : IndexManager → Sums
start_sums i = record { manager = i; total = 0; success = 0; failed = 0 }

init_collected :
    Tools
    → Sources
    → IndexManager
    → Result (List IndexManifest)
    → Option (IndexManager × Option Err)
unfolding init_loaded
init_collected t c i (err e) = some (i, some e)
init_collected t c i (ok ms) = init_loaded (load_manifests t c.owns (c.order ms) (start_sums i))

-- `SetRebalanceHook` is called on the cluster manager in cluster mode, on nil if there is none.
unfoldable pub hook_panics : Mode → Option (Bytes → Bool) → Result (List IndexManifest) → Bool
hook_panics cluster none (ok ms) = true
hook_panics _ _ _ = false

-- `InitManager`; `none` is a panic. Its error does not undo what was loaded.
unfoldable pub init_manager :
    Tools → Sources → Mode → Status → Native → Option (IndexManager × Option Err)
unfolding init_collected
init_manager t c mode s n =
    if hook_panics mode c.owns (collect c mode)
    then none
    else init_collected t c (fresh mode s n) (collect c mode)

manager_after : Option (IndexManager × Result (ℕ × ℕ)) → Option IndexManager
manager_after none = none
manager_after (some (i, r)) = some i

manifest_event :
    Tools → Option (Bytes → Bool) → EventKind → IndexManifest → IndexManager → Option IndexManager
unfolding manager_after
manifest_event t owns EventKind.create m i = manager_after (load_index t owns m i)
manifest_event t owns EventKind.deleted m i = delete_index m.meta.name i
manifest_event t owns EventKind.modify m i = some i

-- An event of the watch on the manifests, by its kind and its value; `none` is a panic. An error of
-- YAML is only logged.
unfoldable pub handle_manifest :
    Tools
    → Option (Bytes → Bool)
    → Decoder IndexManifest
    → EventKind
    → Bytes
    → IndexManager
    → Option IndexManager
unfolding manifest_event
handle_manifest t owns yaml kind value i =
    let m = (yaml value zero_manifest).0 in
    if validate m then manifest_event t owns kind m i else some i

commit_named :
    Option Membership → Bytes → Option ℤ → IndexManager → Etcd → Option (IndexManager × Etcd)
commit_named c [] r i e = some (i, e)
commit_named c (b ∷ name) none i e = some (i, e)
commit_named c (b ∷ name) (some r) i e = commit_index c (b ∷ name) r i e

-- An event of the watch on the revisions, by its key and what JSON makes of its value; `none` is a
-- panic.
unfoldable pub handle_commit :
    Option Membership
    → EventKind
    → Bytes
    → Option ℤ
    → IndexManager
    → Etcd
    → Option (IndexManager × Etcd)
unfolding commit_named
handle_commit c EventKind.deleted key r i e = some (i, e)
handle_commit c _ key r i e = commit_named c (parse_index_name_from_commit_key e.root key) r i e
