-- ===== src/Cluster.antt =====
-- internal/cluster/node.go: the nodes of the cluster and the hash ring that gives each shard key to
-- a node. The ring (package hashring), etcd, JSON and floating-point arithmetic are arguments.
pub mod Owner
pub mod Watch
pub mod Routes
pub mod Registration
use vectory.Base.{
  ℕ, ◌≡◌, ◌≢◌, ◌↔◌, refl, Bool, true, false, List, [], ◌∷◌, ◌++◌, Option, none, some, Bytes, codes,
  is_empty, bytes_same, Map, bytes_key, load, store, delete, ℤ, ◌==◌, if◌then◌else◌,
}
use vectory.Errors.{
  Err, Result, ok, err, node_not_available, cluster_not_initialised, unknown_status,
}
use vectory.Status.{NodeStatus}

-- The functions of package hashring that are called, and what its documentation says of them:
-- `has r n` says that `n` is a node of the ring `r`.
pub record Hashring : Type 1 where
  pub Ring : Type 0
  pub new : List Bytes → Ring
  pub add_node : Ring → Bytes → Ring
  pub remove_node : Ring → Bytes → Ring
  pub get_node : Ring → Bytes → Option Bytes
  pub has : Ring → Bytes → Bool
  pub has-get_node : (r : Ring) (key n : Bytes) → get_node r key ≡ some n → has r n ≡ true
  pub get_node-none : (r : Ring) (key n : Bytes) → get_node r key ≡ none → has r n ≡ false
  pub has-add_node :
      (r : Ring) (n m : Bytes) → has (add_node r n) m ≡ (if bytes_same n m then true else has r m)
  pub has-remove_node :
      (r : Ring) (n m : Bytes)
      → has (remove_node r n) m ≡ (if bytes_same n m then false else has r m)
  pub has-new-nil : (m : Bytes) → has (new []) m ≡ false
  pub has-new-cons :
      (n : Bytes) (ns : List Bytes) (m : Bytes)
      → has (new (n ∷ ns)) m ≡ (if bytes_same n m then true else has (new ns) m)

pub record NodeMeta : Type 0 where
  pub node_id : Bytes
  pub addr : Bytes
  pub status : NodeStatus

-- `CPU` is a float64, by its bits.
pub record NodeLoad : Type 0 where
  pub cpu : ℕ
  pub mem_free : ℕ

pub record Routing : Type 0 where
  pub node : Option NodeMeta
  pub load : Option NodeLoad

-- `uint32((1 - cpu) * 1000)` and `uint32(float32(weight) * 0.1)`.
pub record Floats : Type 0 where
  pub idle_weight : ℕ → ℕ
  pub tenth : ℕ → ℕ

-- Both zeros of a float64.
abbrev is_zero_cpu : ℕ → Bool
is_zero_cpu c = if c == 0 then true else c == 9_223_372_036_854_775_808

load_weight : Floats → Option NodeLoad → ℕ
load_weight fl none = 1000
load_weight fl (some l) = if is_zero_cpu l.cpu then 1000 else fl.idle_weight l.cpu

status_weight : Floats → ℕ → NodeStatus → ℕ
status_weight fl w NodeStatus.healthy = w
status_weight fl w NodeStatus.rebalancing = fl.tenth w
status_weight fl w NodeStatus.unhealthy = fl.tenth w
status_weight fl w _ = 0

node_weight : Floats → Option NodeLoad → Option NodeMeta → ℕ
unfolding load_weight status_weight
node_weight fl l none = 0
node_weight fl l (some n) =
    if is_empty n.addr then 0 else status_weight fl (load_weight fl l) n.status

-- `Routing.Weight`
unfoldable pub weight : Floats → Routing → ℕ
unfolding node_weight
weight fl r = node_weight fl r.load r.node

pub record EtcdManager (R : Type 0) : Type 0 where
  pub node_id : Bytes
  pub ring : Option R
  pub node_meta_map : Map Bytes NodeMeta
  pub attached_load : Bool

-- The answer to the read of a node's load: etcd fails, has no such key, has a value that is no
-- load, or has a load.
pub data LoadReply : Type 0 where
  failed : Err → LoadReply
  missing : LoadReply
  garbled : Err → LoadReply
  found : NodeLoad → LoadReply

-- `getLoad`: a missing key gives neither a load nor an error.
unfoldable pub get_load : LoadReply → Option NodeLoad × Option Err
get_load (failed e) = (none, some e)
get_load missing = (none, none)
get_load (garbled e) = (none, some e)
get_load (found l) = (some l, none)

-- `getNodeMeta`
node_meta_or : Option NodeMeta → Result NodeMeta
node_meta_or none = err node_not_available
node_meta_or (some n) = ok n

unfoldable pub get_node_meta : {R : Type 0} → EtcdManager R → Bytes → Result NodeMeta
unfolding node_meta_or
get_node_meta e id = node_meta_or (load id e.node_meta_map)

-- The switch over the status at the end of `getNode`.
by_status : NodeMeta → NodeStatus → Option NodeMeta × Option Err
by_status n NodeStatus.init = (some n, some node_not_available)
by_status n NodeStatus.start = (some n, some node_not_available)
by_status n NodeStatus.inactive = (some n, some node_not_available)
by_status n NodeStatus.healthy = (some n, none)
by_status n NodeStatus.rebalancing = (some n, none)
by_status n NodeStatus.unhealthy = (some n, none)
by_status n (NodeStatus.other s) = (none, some unknown_status)

by_meta : Result NodeMeta → Option NodeMeta × Option Err
unfolding by_status
by_meta (err e) = (none, some node_not_available)
by_meta (ok n) = by_status n n.status

module _ (h : Hashring) where
  open h use {Ring}

  by_owner : EtcdManager Ring → Option Bytes → Option NodeMeta × Option Err
  unfolding by_meta
  by_owner e none = (none, some node_not_available)
  by_owner e (some id) = by_meta (get_node_meta e id)

  on_ring : EtcdManager Ring → Bytes → Option Ring → Option NodeMeta × Option Err
  unfolding by_owner
  on_ring e key none = (none, some cluster_not_initialised)
  on_ring e key (some r) = by_owner e (h.get_node r key)

  -- `getNode`
  unfoldable pub get_node : EtcdManager Ring → Bytes → Option NodeMeta × Option Err
  unfolding on_ring
  get_node e key = on_ring e key e.ring

  with_load : NodeMeta → Option NodeLoad × Option Err → Option Routing × Option Err
  with_load n (l, e) = (some (record { node = some n; load = l }), e)

  -- `getNode` without an error always returns a node; its nil would be a panic here.
  routed :
      EtcdManager Ring
      → (Bytes → LoadReply)
      → Option NodeMeta × Option Err
      → Option Routing × Option Err
  unfolding with_load
  routed e loads (n, some x) = (none, some x)
  routed e loads (none, none) = (none, none)
  routed e loads (some n, none) =
      if e.attached_load
      then with_load n (get_load (loads n.node_id))
      else (some (record { node = some n; load = none }), none)

  -- `Route`; `loads` answers the reads of the nodes' loads.
  unfoldable pub route :
      EtcdManager Ring → (Bytes → LoadReply) → Bytes → Option Routing × Option Err
  unfolding routed
  route e loads key = routed e loads (get_node e key)

  is_node : Option Bytes → Bytes → Bool
  is_node none id = false
  is_node (some n) id = bytes_same n id

  -- `NeedLoad`; the ring was made by `SyncCluster` before (a nil ring is a panic, `none`).
  need_on : Bytes → Bytes → Option Ring → Option Bool
  unfolding is_node
  need_on id key none = none
  need_on id key (some r) = some (is_node (h.get_node r key) id)

  unfoldable pub need_load : EtcdManager Ring → Bytes → Option Bool
  unfolding need_on
  need_load e key = need_on e.node_id key e.ring

  owner_or_empty : Option Bytes → Bytes
  owner_or_empty none = []
  owner_or_empty (some n) = n

  owner_on : Bytes → Option Ring → Bytes
  unfolding owner_or_empty
  owner_on key none = []
  owner_on key (some r) = owner_or_empty (h.get_node r key)

  -- `GetOwnerNode`
  unfoldable pub get_owner_node : EtcdManager Ring → Bytes → Bytes
  unfolding owner_on
  get_owner_node e key = owner_on key e.ring
