-- ===== src/Lib.antt =====
-- Verification of Vectory, a server that keeps shards of vector indexes on the nodes of a cluster.
--
-- A manifest describes an index: its shards, their replicas, where its files lie and how it is
-- reloaded. Every node learns the manifests and the other nodes from etcd. A consistent hash ring gives
-- each replica of a shard to a node, and a node loads the shards of which it has a replica. When the
-- ring changes, the index manager rebalances: it loads what the node has become responsible for and
-- deletes the rest. A new revision of an index is staged on each shard first; a node whose shards are
-- staged writes a ready key, and when all the owners of the index are ready a commit key makes every
-- node serve the staged revision. A search asks the shards that are loaded here, and marks the others
-- for routing to nodes that have them; the processor merges what comes back.
--
-- The files, and the code each is about:
-- - Base with its children: Boolean tests, lists, byte strings, signed integers, decimal numerals and
--   maps; what Go's packages strings and strconv and its sync.Map do for the rest. Numbers are native;
--   strings are lists of bytes; an int64 is an integer without a bound, since no operation but the
--   reading of numerals could overflow it, and an int32 wraps around where the code multiplies or
--   converts. `itoa` runs on fuel of one more than the number, which is enough because each digit that
--   is taken off makes the number smaller.
-- - Errors: internal/config/consts.go and internal/utils/error.go.
-- - Status: pkg/pkg.go. The state is the current status and all that was sent.
-- - Shard: internal/engine/index.go, with Shard/Keys for the keys of shards, Shard/Generate and
--   Shard/Distinct for the lists of shards.
-- - Config: internal/config/env.go and internal/utils/config_manager/config_manager.go; Config/Paths:
--   internal/config/path.go and parseIndexNameFromCommitKey of internal/engine/manager.go. Config/Manager:
--   Init, Get and Set of config_manager.go, with the package viper as an interface.
-- - Faiss: internal/engine/faiss.go. The state is a FaissIndex beside a Native, which records the
--   handles that the native library gave out and those that were freed. Faiss/Calls has sequences of
--   stagings, commits and discards, each of which the mutexes make one step; Faiss/Ownership is about
--   the handles, Faiss/Revision about revisions, Faiss/Reload about the unstaged reload and
--   Faiss/Searching about searches.
-- - Download: internal/engine/downloader.go and local_dl.go; Download/FilePath: the functions of Go's
--   package path that they call; Download/S3: the location and keys of internal/engine/s3_dl.go;
--   Download/Bucket: the downloader of that file, with what a bucket answers as an argument and the
--   temporary files as its state. `trim_front` runs on the length of the string as fuel, which is enough
--   because each step takes a byte at least. Download/Bucket/Fetching is about what it fetches.
-- - Index: the interface Index of internal/engine/index.go with its implementations, a FaissIndex and
--   the mock of internal/engine/mock.go, and their constructors.
--   Index/Accessors: what can be read of an index, with the table of metrics.
-- - Cluster: internal/cluster/node.go. The record Hashring is the interface to the package hashring:
--   its functions with the laws that the code relies on. Cluster/Watch is the first read of the nodes
--   and the handling of each event, Cluster/Watch/Known that the nodes stay known; Cluster/Owner and
--   Cluster/Routes are about owners and routes, Cluster/Watch/Draining about a node that becomes
--   inactive. Cluster/Registration is how a node registers, publishes its status and its load, and
--   leaves; Cluster/Registration/Published is about what etcd then says of it.
-- - Manager: internal/engine/manager.go. The state is an IndexManager: the loaded shards, manifests and
--   pending shards as maps, the mode, the status and the Native of all shards. loadIndex and deleteIndex
--   are in Manager, Search and ResolveUniqueShard in Manager/Search, Rebalance in Manager/Rebalance, and
--   the two-phase reload in Manager/Revision (Ready and Committing: when a commit is written, Signals: how ready keys are read, Commit:
--   what it does), where etcd is a map of keys with the errors it answers.
--   Manager/Start is InitManager and the handling of the events that SyncCluster and watchCommits read
--   (Loading: what its loop leaves, Loads: what loadIndex gives, Complete: what InitManager promises, Events: deletions and commits);
--   Manager/Schedule is the reload that the scheduler fires. Manager/Life has all of these as steps of
--   a relation; Manager/Handles, Index/Handles, Faiss/Deleting, Manager/Rebalance/Total and
--   Manager/Life/Serving show that no step panics for want of a handle.
-- - Merge: MergeSortedLists of internal/utils/utils.go. The record Heap is the interface to its queue.
--   Merge/Items is about what is merged, Merge/Order about its order. Merge/PriorityQueue is the
--   PriorityQueue of that file with Go's container/heap over it: `up` runs on one more than the index as
--   fuel and `down` on the number of items, which are enough because the index gets smaller, or grows, at
--   each step. Swapping, Sifting and Sinking below it are about what these do to the order of a heap,
--   Holding and Popping about Push and Pop; Merge/Queued joins it to the interface.
-- - Processor: Handle of internal/processor/search.go and of search_shard.go, with the messages of the
--   protocol as records. The items that are merged have addresses, by which Go compares them. The
--   theorems are in Processor/Answers. Processor/Gin: GinHandleFunc of both files.
-- - Resolver: convertRoutingToAddrs and ResolveNow of internal/grpc_client/resolver.go; the theorem is in
--   Resolver/Addresses. Resolver/Life: Build, start, Update and Close over sequences of events, with the
--   listeners of internal/engine/manager.go and the entries of the scheduler as the state; its lemmas are in
--   Kept and Told. Resolver/Client: GetShardClient of internal/grpc_client/client.go.
-- - Program: Start and Stop of internal/core/vectory.go, which join the cluster manager and the index
--   manager; Program/Starting is about the status after a start, Program/Stopping about
--   what etcd has of a node after its stop, in which the write of the status may come before or after the
--   delete of the key.
-- - Tests: inputs, runs of the definitions on them and instances of the theorems.
--
-- A function that may panic returns an Option, with `none` for the panic; a function that may fail
-- returns a Result or the tuple of the source. Loops are recursion on the list that they run over; a
-- loop that counts up is recursion on the count. The hash ring, etcd, JSON, file systems, the native
-- library, the scheduler and floating-point arithmetic are arguments.
--
-- Not modelled: logging and metrics, which nothing depends on; the generated code of the protocol,
-- apart from four messages; the servers and their handlers, which forward requests; the renewal of
-- leases; and interleavings inside an operation, apart from the reads of a download. The goroutines of
-- InitManager are taken one after another, in an order that is an argument. Manifests may have no source, as
-- the nil pointer of the program: NewIndex for FAISS panics on one. An index that was loaded holds the source
-- that its manifest points to. Handles that were freed are known, and no read through one is a value; that
-- the handles of different indexes differ is not modelled.
pub mod Base
pub mod Errors
pub mod Status
pub mod Shard
pub mod Config
pub mod Faiss
pub mod Download
pub mod Index
pub mod Cluster
pub mod Manager
pub mod Merge
pub mod Processor
pub mod Resolver
pub mod Program
pub mod Tests
