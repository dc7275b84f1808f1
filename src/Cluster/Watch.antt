-- ===== src/Cluster/Watch.antt =====
-- `SyncCluster`: the first read of the nodes, and the loop over the events of the watch. What JSON
-- makes of a value is an argument: the record that is left, and an error if there is one. Whether
-- an event calls the rebalance hook is the second part of a result.
pub mod Known
pub mod Draining
use vectory.Base.{
  ◌++◌, ◌≡◌, ◌≢◌, refl, sym, ap, subst, ◌∙◌, ◌⊎◌, Bool, true, false, List, [], ◌∷◌, Option, none,
  some, Bytes, bytes_same, bytes_same_iff, bytes_key, load, store, delete, load-store, load-delete,
  if◌then◌else◌, Bool-cases, inl, inr, In,
}
use vectory.Errors.{Err, Result, ok, err}
use vectory.Status.{NodeStatus, same_status}
use vectory.Cluster.{Hashring, NodeMeta, EtcdManager}

pub data EventKind : Type 0 where
  create modify deleted : EventKind

pub record Event : Type 0 where
  pub kind : EventKind
  pub value : Bytes

module _ (h : Hashring) (decode : Bytes → NodeMeta × Option Err) where
  open h use {Ring}

  stop_at :
      Option Err
      → EtcdManager Ring
      → EtcdManager Ring × Result (List Bytes)
      → EtcdManager Ring × Result (List Bytes)
  stop_at (some x) e rest = (e, err x)
  stop_at none e rest = rest

  -- The loop over the keys read at first: the nodes to put on the ring, in order. It stops at a
  -- value that is no node, with the nodes before it stored.
  read_nodes : List Bytes → EtcdManager Ring → List Bytes → EtcdManager Ring × Result (List Bytes)
  read_nodes [] e nodes = (e, ok nodes)
  read_nodes (v ∷ vs) e nodes =
      let meta = (decode v).0 in
      let stored = record e { node_meta_map = store meta.node_id meta e.node_meta_map } in
      let rest = read_nodes vs stored (
        if same_status meta.status NodeStatus.inactive
        then nodes
        else nodes ++ (meta.node_id ∷ [])) in
      stop_at (decode v).1 e rest

  put_ring : EtcdManager Ring × Result (List Bytes) → EtcdManager Ring × Result (Unit {0})
  put_ring (e, err x) = (e, err x)
  put_ring (e, ok nodes) = (record e { ring = some (h.new nodes) }, ok tt)

  -- The first half of `SyncCluster`, given the answer to the read.
  unfoldable pub sync_cluster :
      Result (List Bytes) → EtcdManager Ring → EtcdManager Ring × Result (Unit {0})
  unfolding read_nodes stop_at put_ring
  sync_cluster (err x) e = (e, err x)
  sync_cluster (ok vs) e = put_ring (read_nodes vs e [])

  with_node : EtcdManager Ring → Ring → NodeMeta → EtcdManager Ring
  with_node e r meta = record e {
    ring = some (h.add_node r meta.node_id);
    node_meta_map = store meta.node_id meta e.node_meta_map;
  }

  without_node : EtcdManager Ring → Ring → NodeMeta → EtcdManager Ring
  without_node e r meta = record e {
    ring = some (h.remove_node r meta.node_id);
    node_meta_map = delete meta.node_id e.node_meta_map;
  }

  changed_node : EtcdManager Ring → Ring → NodeMeta → EtcdManager Ring × Bool
  changed_node e r meta =
      let stored = record e { node_meta_map = store meta.node_id meta e.node_meta_map } in
      if same_status meta.status NodeStatus.inactive
      then (record stored { ring = some (h.remove_node r meta.node_id) }, true)
      else (stored, false)

  by_kind : EventKind → EtcdManager Ring → Ring → NodeMeta → EtcdManager Ring × Bool
  unfolding with_node without_node changed_node
  by_kind create e r meta = (with_node e r meta, true)
  by_kind deleted e r meta = (without_node e r meta, true)
  by_kind modify e r meta = changed_node e r meta

  -- One event; a value that is no node is logged and its event is handled all the same. The ring is
  -- there since the first half of `SyncCluster` (a nil ring would be a panic).
  unfoldable pub handle_event : EtcdManager Ring → Ring → Event → EtcdManager Ring × Bool
  unfolding by_kind
  handle_event e r v = by_kind v.kind e r (decode v.value).0
