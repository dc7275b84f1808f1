-- ===== src/Cluster/Watch/Draining.antt =====
-- How a node that becomes inactive loses its shards on the other nodes.
use vectory.Base.{
  ◌≡◌, ◌≢◌, refl, sym, ap, ◌∙◌, true, false, Option, none, some, Bytes, bytes_same_iff, [],
}
use vectory.Errors.{Err}
use vectory.Status.{NodeStatus}
use vectory.Cluster.{Hashring, NodeMeta, EtcdManager, get_owner_node, owner_on, owner_or_empty}
use vectory.Cluster.Watch.{modify, changed_node, by_kind, handle_event}

module _ (h : Hashring) (decode : Bytes → NodeMeta × Option Err) where
  open h use {Ring}

  not_owner :
      (r : Ring) (key n : Bytes) (o : Option Bytes)
      → h.get_node r key ≡ o
      → h.has r n ≡ false
      → n ≢ []
      → owner_or_empty h o ≢ n
  unfolding owner_or_empty
  not_owner r key n none g q ne = λ e. ne (sym e)
  not_owner r key n (some k) g q ne = λ e.
      let there : h.has r k ≡ true = h.has-get_node r key k g in
      let here : h.has r n ≡ true = ap (h.has r) (sym e) ∙ there in absurd (cc)

  drained :
      (e : EtcdManager Ring) (r : Ring) (meta : NodeMeta) (key : Bytes)
      → meta.status ≡ NodeStatus.inactive
      → meta.node_id ≢ []
      → ((changed_node h decode e r meta).1 ≡ true)
        × (get_owner_node h (changed_node h decode e r meta).0 key ≢ meta.node_id)
  unfolding changed_node get_owner_node owner_on
  drained e r meta key q ne =
      let off : h.has (h.remove_node r meta.node_id) meta.node_id ≡ false =
        h.has-remove_node r meta.node_id meta.node_id
        ∙ rw ((bytes_same_iff meta.node_id meta.node_id).1 refl) refl in
      rw q (refl, not_owner (h.remove_node r meta.node_id) key meta.node_id _ refl off ne)

  -- A node that handles the event that the meta of another one was changed to inactive asks for a
  -- rebalance, and takes the other one for the owner of no shard.
  pub handle_event-drained :
      (e : EtcdManager Ring) (r : Ring) (value key : Bytes)
      → (decode value).0.status ≡ NodeStatus.inactive
      → (decode value).0.node_id ≢ []
      → let (g, hook) = (handle_event h decode) e r (record { kind = modify; value = value }) in
        (hook ≡ true) × (get_owner_node h g key ≢ (decode value).0.node_id)
  unfolding handle_event by_kind
  handle_event-drained e r value key q ne = drained e r (decode value).0 key q ne
