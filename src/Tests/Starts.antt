-- ===== src/Tests/Starts.antt =====
-- The start of a node, alone and in a cluster of which it is the only node, with the index of Data.
use vectory.Base.{
  ◌≡◌, refl, inl, inr, true, List, [], ◌∷◌, Option, none, some, Bytes, codes, load, store,
  bytes_key, pos, itoa, ◌*ℤ◌, Bool,
}
use vectory.Errors.{Err, ok}
use vectory.Status.{NodeStatus, Status, set_status, initial, IsHistory}
use vectory.Shard.{
  Shard, IndexManifest, shard_key, unique_shard_key, shard_as_key, generate_shards, shard_grid,
  capacity, count_up, shard_of,
}
use vectory.Config.Paths.{local_index_path, node_meta_path, node_meta_path_prefix}
use vectory.Index.{Index, new_index, new_mock_index, set_cluster_reload_callback}
use vectory.Cluster.{NodeMeta, need_load}
use vectory.Cluster.Watch.{sync_cluster}
use vectory.Cluster.Registration.{
  Registry, Member, init_etcd_manager, register, report_load, standard, publish,
}
use vectory.Manager.{IndexManager, Mode, single, cluster, load_index, load_shards, load_shard}
use vectory.Manager.Start.{
  Decoder, Folder, Sources, unmarshal, parse_files, parse_manifests, collect, load_manifests,
  outcome, fresh, hook_panics, init_manager,
}
use vectory.Manager.Start.Complete.{Tells, init_manager-Tells, init_manager-Complete}
use vectory.Program.Stopping.{stop-Remains}
use vectory.Program.{
  put_after, ClusterSetting, Outside, Node, owns_of, sources_of, settle, start_engine, start, owned,
  stop,
}
use vectory.Index.{new_faiss_index}
use vectory.Shard.{IndexType}
use vectory.Tests.Data.{
  books_meta, folder_source, books, books_meta, first_shard, second_shard, last_added, node_a,
}
use vectory.Tests.Managers.{tools, nothing_open, mock_of}
use vectory.Cluster.Registration.Published.{publish-current}
use vectory.Program.Starting.{StatusTells, start_engine-StatusTells, start-Complete}

abbrev pub reads_books : Decoder IndexManifest
reads_books raw dest = (books, none)

abbrev one_file : Folder
one_file = record {
  path = codes "/i";
  names = ok (codes "b.yml" ∷ []);
  read_file = λ p. ok (codes "b");
}

abbrev all_four : List Shard
all_four =
    first_shard
    ∷ shard_of books_meta (pos 0) (pos 1)
    ∷ second_shard
    ∷ shard_of books_meta (pos 1) (pos 1)
    ∷ []

grid : generate_shards books ≡ some all_four
unfolding generate_shards shard_grid capacity ◌*ℤ◌ count_up
grid = refl

abbrev alone : Sources
alone = record {
  owns = none;
  stored = ok [];
  folder = one_file;
  yaml = reads_books;
  json = reads_books;
  order = λ ms. ms;
}

abbrev pub loaded : Mode → Status → IndexManager
loaded mode s = record {
  engine_store = (codes "b:0", mock_of first_shard) ∷ (codes "b:1", mock_of second_shard) ∷ [];
  index_manifests = (codes "b", books) ∷ [];
  pending_shards = [];
  mode = mode;
  status = s;
  native = nothing_open;
}

collected : collect alone single ≡ ok (books ∷ [])
unfolding collect unmarshal parse_files local_index_path
collected = refl

loads_alone :
    init_manager tools alone single initial nothing_open ≡ some (loaded single initial, none)
unfolding init_manager hook_panics collect unmarshal parse_files local_index_path fresh
    load_manifests load_index load_shards load_shard generate_shards shard_grid capacity ◌*ℤ◌
    count_up new_index new_mock_index load store unique_shard_key shard_key itoa outcome
loads_alone = refl

init_manager-Complete_example :
    (x : Index) × (load (unique_shard_key second_shard) (loaded single initial).engine_store
      ≡ some x)
init_manager-Complete_example =
    init_manager-Complete tools alone single initial nothing_open (λ k. true) (books ∷ [])
      (loaded single initial) books all_four second_shard refl collected loads_alone (inl refl) grid
      (inr (inr (inl refl))) refl

init_manager-Tells_example :
    (j : IndexManager) × (e : Option Err) × (init_manager tools alone single initial nothing_open
      ≡ some (j, e))
    × Tells j e
init_manager-Tells_example =
    init_manager-Tells tools alone single initial nothing_open (λ k. true) (books ∷ []) refl
      collected (((all_four, grid), λ e. (folder_source, refl)), tt)

-- The program panics on a shard of FAISS whose manifest has no source.
no_source :
    load_index tools none
      (record books { meta = record books_meta { kind = IndexType.faiss }; source = none })
      (fresh single initial nothing_open)
    ≡ none
unfolding fresh load_index load_shards load_shard generate_shards shard_grid capacity ◌*ℤ◌ count_up
    new_index new_faiss_index load unique_shard_key shard_key itoa
no_source = refl

pub loads_two :
    load_index tools none books (fresh single initial nothing_open)
    ≡ some (loaded single initial, ok (2, 2))
unfolding fresh load_index load_shards load_shard generate_shards shard_grid capacity ◌*ℤ◌ count_up
    new_index new_mock_index load store unique_shard_key shard_key itoa
loads_two = refl

-- In a cluster, with the node registered and on the ring.
abbrev this_node : NodeMeta
this_node = record node_a { status = NodeStatus.start }

abbrev reads_node : Bytes → NodeMeta × Option Err
reads_node value = (this_node, none)

abbrev registry : Registry
registry = record {
  root = codes "/v";
  metas = [];
  loads = [];
  grant = ok (pos 5);
  keep_alive_error = none;
  put_error = λ k. none;
  delete_error = none;
}

abbrev outside : Outside
outside = record {
  listen_error = none;
  addr = codes "1.2.3.4";
  nodes = ok (codes "n" ∷ []);
  stored = ok (codes "b" ∷ []);
  folder = one_file;
  yaml = reads_books;
  json = reads_books;
  order = λ ms. ms;
  ended = none;
}

abbrev node_before : Node (List Bytes)
node_before = record {
  id = codes "a";
  status = initial;
  member = none;
  engine = none;
  registry = registry;
  native = nothing_open;
}

abbrev setting : ClusterSetting
setting = record { enabled = true; lb_mode = codes "CPU" }

abbrev member : Member (List Bytes)
member = record {
  manager = record {
    node_id = codes "a";
    ring = some (codes "a" ∷ []);
    node_meta_map = (codes "a", this_node) ∷ [];
    attached_load = true;
  };
  lease = some (pos 5);
}

abbrev running : Status
running = record { current = NodeStatus.healthy; sent = NodeStatus.healthy ∷ NodeStatus.init ∷ [] }

abbrev node_after : Node (List Bytes)
node_after = record node_before {
  status = running;
  member = some member;
  engine = some (loaded cluster running);
  registry = record registry { metas = (codes "/v/node/meta/a", this_node) ∷ [] };
}

starts : start last_added reads_node tools setting outside node_before ≡ some (node_after, none)
unfolding start register node_meta_path node_meta_path_prefix init_etcd_manager report_load standard
    sync_cluster start_engine sources_of owns_of settle need_load init_manager hook_panics collect
    unmarshal parse_manifests fresh load_manifests load_index load_shards load_shard generate_shards
    shard_grid capacity ◌*ℤ◌ count_up new_index new_mock_index set_cluster_reload_callback load
    store unique_shard_key shard_key itoa outcome set_status
starts = refl

abbrev owns_here : Bytes → Bool
owns_here key = owned last_added reads_node tools (need_load last_added member.manager key)

stored_books :
    collect (sources_of last_added reads_node tools outside (some member)) cluster ≡ ok (books ∷ [])
unfolding sources_of collect unmarshal parse_manifests
stored_books = refl

second_needed : owns_of last_added reads_node tools (some member) ≡ some owns_here
unfolding owns_of
second_needed = refl

second_owned : owns_here (shard_key second_shard) ≡ true
unfolding need_load
second_owned = refl

start-Complete_example :
    (x : Index) × (load (unique_shard_key second_shard) (loaded cluster running).engine_store
      ≡ some x)
start-Complete_example =
    start-Complete last_added reads_node tools setting outside node_before node_after none
      (loaded cluster running) second_shard refl starts refl refl
      (
        owns_here,
        books ∷ [],
        books,
        all_four,
        second_needed,
        stored_books,
        inl refl,
        grid,
        inr (inr (inl refl)),
        second_owned,
      )

start_engine-StatusTells_example :
    (m : Node (List Bytes)) × (x : Option Err) × (i : IndexManager) × (start_engine last_added
        reads_node tools outside cluster node_after
      ≡ some (m, x))
    × (m.engine ≡ some i)
    × StatusTells m.status.current i x
start_engine-StatusTells_example =
    start_engine-StatusTells last_added reads_node tools outside cluster node_after owns_here
      (books ∷ []) second_needed stored_books (((all_four, grid), λ e. (folder_source, refl)), tt)

-- What the node says of itself after its start.
running-IsHistory : IsHistory running
running-IsHistory = record { ends = refl; changes = (λ e. absurd (cc), (λ e. absurd (cc))) }

self_known : load (codes "a") member.manager.node_meta_map ≡ some this_node
unfolding load
self_known = refl

self_registered :
    load (node_meta_path (codes "/v") (codes "a")) node_after.registry.metas ≡ some this_node
unfolding load node_meta_path node_meta_path_prefix
self_registered = refl

publish-current_example :
    load
      (node_meta_path (codes "/v") (codes "a"))
      (publish running.sent node_after.registry member.manager).0.metas
    ≡ some (record this_node { status = NodeStatus.healthy })
publish-current_example =
    publish-current running this_node node_after.registry member.manager running-IsHistory
      self_known self_registered refl

stop-Remains_example :
    (m : Node (List Bytes)) × (stop last_added reads_node tools put_after setting node_after
      ≡ some m)
    × (m.status.current ≡ NodeStatus.inactive)
    × (load (node_meta_path (codes "/v") (codes "a")) m.registry.metas
        ≡ some (record this_node { status = NodeStatus.inactive }))
stop-Remains_example =
    stop-Remains last_added reads_node tools put_after setting node_after member this_node refl refl
      self_known refl refl
