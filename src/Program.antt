-- ===== src/Program.antt =====
-- internal/core/vectory.go: how a node starts and stops. The servers run beside it; what they, the
-- listener and the system answer are arguments.
pub mod Starting
pub mod Stopping
use vectory.Base.{
  ◌≡◌, Bool, true, false, List, [], ◌∷◌, Option, none, some, Bytes, ℤ, ◌>>=◌, if◌then◌else◌,
}
use vectory.Errors.{Err, partly_success, Result, ok, err, is_partly_success}
use vectory.Status.{NodeStatus, Status, set_status}
use vectory.Faiss.{Native}
use vectory.Cluster.{Hashring, NodeMeta, EtcdManager, need_load}
use vectory.Cluster.Watch.{sync_cluster}
use vectory.Cluster.Registration.{
  set_node_status, Registry, Member, init_etcd_manager, register, report_load, unregister,
}
use vectory.Manager.{IndexManager, Mode, single, cluster, Tools}
use vectory.Manager.Start.{Decoder, Folder, Sources, init_manager}
use vectory.Shard.{IndexManifest}

-- The cluster part of `config.ClusterMetaConfig`.
pub record ClusterSetting : Type 0 where
  pub enabled : Bool
  pub lb_mode : Bytes

-- What the start is given from outside: the error of the listener and its address, the nodes and the
-- manifests that etcd or the folder holds, and what ends the wait at the end (`none` is a signal).
pub record Outside : Type 0 where
  pub listen_error : Option Err
  pub addr : Bytes
  pub nodes : Result (List Bytes)
  pub stored : Result (List Bytes)
  pub folder : Folder
  pub yaml : Decoder IndexManifest
  pub json : Decoder IndexManifest
  pub order : List IndexManifest → List IndexManifest
  pub ended : Option Err

-- The node: its id, its status, its cluster manager and index manager, and the registry.
pub record Node (R : Type 0) : Type 0 where
  pub id : Bytes
  pub status : Status
  pub member : Option (Member R)
  pub engine : Option IndexManager
  pub registry : Registry
  pub native : Native

-- The status after `InitManager`, by its error.
abbrev pub status_for : Option Err → NodeStatus
status_for none = NodeStatus.healthy
status_for (some e) = if is_partly_success e then NodeStatus.unhealthy else NodeStatus.inactive

abbrev pub goes_on : Option Err → Bool
goes_on none = true
goes_on (some e) = is_partly_success e

abbrev pub mode_of : Bool → Mode
mode_of true = cluster
mode_of false = single

-- When the goroutine of `Register` writes the status of a node that stops: before its key is deleted,
-- after that, or not before the program ends.
pub data PutOrder : Type 0 where
  put_before put_after put_never : PutOrder

module _ (h : Hashring) (decode : Bytes → NodeMeta × Option Err) (t : Tools) where
  open h use {Ring}

  -- NeedLoad; its ring is there once the cluster is in sync.
  abbrev pub owned : Option Bool → Bool
  owned none = false
  owned (some b) = b

  unfoldable pub owns_of : Option (Member Ring) → Option (Bytes → Bool)
  owns_of none = none
  owns_of (some m) = some (λ key. owned (need_load h m.manager key))

  unfoldable pub sources_of : Outside → Option (Member Ring) → Sources
  unfolding owns_of
  sources_of o m = record {
    owns = owns_of m;
    stored = o.stored;
    folder = o.folder;
    yaml = o.yaml;
    json = o.json;
    order = o.order;
  }

  -- The end of `Start`: the status, and the wait for an error of a server or a signal.
  unfoldable pub settle : Outside → Node Ring → IndexManager × Option Err → Node Ring × Option Err
  settle o n (i, e) =
      let s = set_status (status_for e) i.status in
      let settled = record n {
        status = s;
        engine = some (record i { status = s });
        native = i.native;
      } in
      (settled, if goes_on e then o.ended else e)

  -- From `SetStatus(Init)` on; `none` is a panic.
  unfoldable pub start_engine : Outside → Mode → Node Ring → Option (Node Ring × Option Err)
  unfolding settle sources_of
  start_engine o mode n = do
    r ← init_manager t (sources_of o n.member) mode (set_status NodeStatus.init n.status) n.native
    some (settle o n r)

  synced :
      Outside
      → Node Ring
      → Member Ring
      → EtcdManager Ring × Result (Unit {0})
      → Option (Node Ring × Option Err)
  unfolding start_engine
  synced o n m (e, err x) = some (record n { member = some (record m { manager = e }) }, some x)
  synced o n m (e, ok u) =
      start_engine o cluster (record n { member = some (record m { manager = e }) })

  registered :
      ClusterSetting
      → Outside
      → Node Ring
      → Registry × Member Ring × Option Err
      → Option (Node Ring × Option Err)
  unfolding synced
  registered c o n (g, m, some x) = some (record n { registry = g; member = some m }, some x)
  registered c o n (g, m, none) =
      let reporting = (report_load c.lb_mode m.manager).0 in
      synced o (record n { registry = g }) m (sync_cluster h decode o.nodes reporting)

  listening : ClusterSetting → Outside → Node Ring → Option Err → Option (Node Ring × Option Err)
  unfolding registered
  listening c o n (some x) = some (n, some x)
  listening c o n none =
      if c.enabled
      then registered c o n (register o.addr n.registry (init_etcd_manager n.id))
      else start_engine o single n

  -- `Start`; `none` is a panic. The servers are started before, and do not change this state.
  unfoldable pub start : ClusterSetting → Outside → Node Ring → Option (Node Ring × Option Err)
  unfolding listening
  start c o n = listening c o n o.listen_error

  -- `Unregister`, and the Put of the goroutine of `Register` that the new status sets off. Without a
  -- cluster manager its method panics.
  leaving : PutOrder → Registry → Member Ring → Registry × Member Ring
  leaving put_before e m =
      let p = set_node_status NodeStatus.inactive e m.manager in
      (unregister p.0 (record m { manager = p.1 }), record m { manager = p.1 })
  leaving put_after e m =
      let p = set_node_status NodeStatus.inactive (unregister e m) m.manager in
      (p.0, record m { manager = p.1 })
  leaving put_never e m = (unregister e m, m)

  left : PutOrder → Registry → Option (Member Ring) → Option (Registry × Member Ring)
  unfolding leaving
  left order e none = none
  left order e (some m) = some (leaving order e m)

  leave : PutOrder → Node Ring → Option (Node Ring)
  unfolding left
  leave order n = do
    e ← left order n.registry n.member
    some (record n {
      status = set_status NodeStatus.inactive n.status;
      registry = e.0;
      member = some e.1;
    })

  -- `Stop`, as far as it changes this state; `none` is a panic.
  unfoldable pub stop : PutOrder → ClusterSetting → Node Ring → Option (Node Ring)
  unfolding leave
  stop order c n = if c.enabled then leave order n else some n
