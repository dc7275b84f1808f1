-- ===== src/Cluster/Watch/Known.antt =====
-- The nodes of the ring stay known: what the first read of the nodes and each event do to the ring
-- and the map of the nodes.
use vectory.Base.{
  ◌++◌, In-append, ◌≡◌, ◌≢◌, refl, sym, ap, subst, ◌∙◌, ◌⊎◌, Bool, true, false, List, [], ◌∷◌,
  Option, none, some, Bytes, bytes_same, bytes_same_iff, bytes_key, load, store, load-store,
  load-delete, if◌then◌else◌, Bool-cases, inl, inr, In,
}
use vectory.Errors.{Err, Result, ok, err}
use vectory.Status.{NodeStatus, same_status}
use vectory.Cluster.{Hashring, NodeMeta, EtcdManager}
use vectory.Cluster.Watch.{
  EventKind, Event, create, modify, deleted, read_nodes, stop_at, put_ring, sync_cluster, with_node,
  without_node, changed_node, by_kind, handle_event,
}

unlike : (id n : Bytes) → id ≡ [] → n ≢ [] → bytes_same id n ≡ false
unlike id [] e ne = absurd (ne refl)
unlike id (c ∷ n) e ne = rw e

ok_same : {A : Type 0} {a b : A} → ok a ≡ ok b → a ≡ b
ok_same e = cc

module _ (h : Hashring) (decode : Bytes → NodeMeta × Option Err) where
  open h use {Ring}

  -- Every node on the ring is known.
  abbrev pub IsKnown : EtcdManager Ring → Ring → Type 0
  IsKnown e r = (n : Bytes) → h.has r n ≡ true → (m : NodeMeta) × (load n e.node_meta_map ≡ some m)

  -- A node that was taken off the ring is not on it.
  gone :
      (r : Ring) (id n : Bytes) → bytes_same id n ≡ true → h.has (h.remove_node r id) n ≡ true → ⊥
  gone r id n t q =
      let z : h.has (h.remove_node r id) n ≡ false = h.has-remove_node r id n ∙ rw t in cc

  stored_node :
      (e : EtcdManager Ring) (meta : NodeMeta) (n : Bytes)
      → (meta.node_id ≡ n) ⊎ ((m : NodeMeta) × (load n e.node_meta_map ≡ some m))
      → (m : NodeMeta) × (load n (store meta.node_id meta e.node_meta_map) ≡ some m)
  stored_node e meta n known = elim (Bool-cases (bytes_same meta.node_id n)) [
    | inl q ↦ (meta, load-store meta.node_id n meta e.node_meta_map ∙ rw q)
    | inr q ↦ elim known [
      | inl same ↦ absurd (let t = (bytes_same_iff meta.node_id n).1 same in cc)
      | inr (m, l) ↦ (m, load-store meta.node_id n meta e.node_meta_map ∙ rw q l)
    ]
  ]

  read_nodes-stores :
      (vs : List Bytes) (e g : EtcdManager Ring) (nodes ring : List Bytes)
      → (read_nodes h decode) vs e nodes ≡ (g, ok ring)
      → ((n : Bytes) → In n nodes → (m : NodeMeta) × (load n e.node_meta_map ≡ some m))
      → (n : Bytes) → In n ring
      → (m : NodeMeta) × (load n g.node_meta_map ≡ some m)
  unfolding read_nodes stop_at
  read_nodes-stores [] e g nodes ring q k n m =
      let (a, b) = k n (
        subst (In n) (ok_same (ap (λ (p : EtcdManager Ring × Result (List Bytes)). p.1) (sym q)))
          m) in
      (a, ap (λ (p : EtcdManager Ring × Result (List Bytes)). load n p.0.node_meta_map) (sym q) ∙ b)
  read_nodes-stores (v ∷ vs) e g nodes ring q k n m =
      go
        (λ w.
          read_nodes-stores vs _ g _ ring w
            (known (same_status (decode v).0.status NodeStatus.inactive)) n m)
        (decode v).1 q
    where
      meta : NodeMeta
      meta = (decode v).0

      known :
          (b : Bool) (i : Bytes)
          → In i (if b then nodes else nodes ++ (meta.node_id ∷ []))
          → (m : NodeMeta) × (load i (store meta.node_id meta e.node_meta_map) ≡ some m)
      known true i w = stored_node e meta i (inr (k i w))
      known false i w = elim (In-append i nodes (meta.node_id ∷ []) w) [
        | inl v ↦ stored_node e meta i (inr (k i v))
        | inr (inl v) ↦ stored_node e meta i (inl v)
        | inr (inr v) ↦ elim v [ ]
      ]

      rest : EtcdManager Ring × Result (List Bytes)
      rest =
          (read_nodes h decode) vs
            (record e { node_meta_map = store meta.node_id meta e.node_meta_map })
            (if same_status meta.status NodeStatus.inactive
              then nodes
              else nodes ++ (meta.node_id ∷ []))

      go :
          (rest ≡ (g, ok ring) → (m : NodeMeta) × (load n g.node_meta_map ≡ some m))
          → (o : Option Err) → (stop_at h decode) o e rest ≡ (g, ok ring)
          → (m : NodeMeta) × (load n g.node_meta_map ≡ some m)
      go hold (some x) w =
          let z = ap (λ (p : EtcdManager Ring × Result (List Bytes)). p.1) w in absurd (cc)
      go hold none w = hold w

  has-new : (ns : List Bytes) (n : Bytes) → h.has (h.new ns) n ≡ true → In n ns
  has-new [] n q = absurd (let z = h.has-new-nil n in cc)
  has-new (x ∷ ns) n q = elim (Bool-cases (bytes_same x n)) [
    | inl e ↦ inl ((bytes_same_iff x n).0 e)
    | inr e ↦ inr (has-new ns n (sym (h.has-new-cons x ns n ∙ rw e) ∙ q))
  ]

  with_node-IsKnown :
      (e : EtcdManager Ring) (r : Ring) (meta : NodeMeta)
      → IsKnown e r
      → IsKnown ((with_node h decode) e r meta) (h.add_node r meta.node_id)
  unfolding with_node
  with_node-IsKnown e r meta k n q = elim (Bool-cases (bytes_same meta.node_id n)) [
    | inl t ↦ stored_node e meta n (inl ((bytes_same_iff meta.node_id n).0 t))
    | inr t ↦ stored_node e meta n (inr (k n (sym (h.has-add_node r meta.node_id n ∙ rw t) ∙ q)))
  ]

  without_node-IsKnown :
      (e : EtcdManager Ring) (r : Ring) (meta : NodeMeta)
      → IsKnown e r
      → IsKnown ((without_node h decode) e r meta) (h.remove_node r meta.node_id)
  unfolding without_node
  without_node-IsKnown e r meta k n q = elim (Bool-cases (bytes_same meta.node_id n)) [
    | inl t ↦ absurd (gone r meta.node_id n t q)
    | inr t ↦
        let (m, l) = k n (sym (h.has-remove_node r meta.node_id n ∙ rw t) ∙ q) in
        (m, load-delete meta.node_id n e.node_meta_map ∙ rw t l)
  ]

  changed_node-IsKnown :
      (e : EtcdManager Ring) (r : Ring) (meta : NodeMeta)
      → e.ring ≡ some r
      → IsKnown e r
      → (s : Ring) × (((changed_node h decode) e r meta).0.ring ≡ some s)
        × IsKnown ((changed_node h decode) e r meta).0 s
  unfolding changed_node
  changed_node-IsKnown e r meta q k =
      elim (Bool-cases (same_status meta.status NodeStatus.inactive)) [
        | inl t ↦
            rw t (
              h.remove_node r meta.node_id,
              refl,
              λ n p. stored_node e meta n (inr (k n (kept n p))),
            )
        | inr t ↦ rw t (r, q, λ n p. stored_node e meta n (inr (k n p)))
      ]
    where
      kept : (n : Bytes) → h.has (h.remove_node r meta.node_id) n ≡ true → h.has r n ≡ true
      kept n p = elim (Bool-cases (bytes_same meta.node_id n)) [
        | inl t ↦ absurd (gone r meta.node_id n t p)
        | inr t ↦ sym (h.has-remove_node r meta.node_id n ∙ rw t) ∙ p
      ]

  put_ring-IsKnown :
      (p : EtcdManager Ring × Result (List Bytes)) (g : EtcdManager Ring)
      → ((nodes : List Bytes)
          → p.1 ≡ ok nodes
          → (n : Bytes) → In n nodes
          → (m : NodeMeta) × (load n p.0.node_meta_map ≡ some m))
      → (put_ring h decode) p ≡ (g, ok tt)
      → (r : Ring) × (g.ring ≡ some r) × IsKnown g r
  unfolding put_ring
  put_ring-IsKnown (e, err x) g k q =
      let z = ap (λ (p : EtcdManager Ring × Result (Unit {0})). p.1) q in absurd (cc)
  put_ring-IsKnown (e, ok nodes) g k q =
      let z = ap (λ (p : EtcdManager Ring × Result (Unit {0})). p.0) q in
      (
        h.new nodes,
        ap (λ (x : EtcdManager Ring). x.ring) (sym z),
        λ n w.
            let (m, l) = k nodes refl n (has-new nodes n w) in
            (m, ap (λ (x : EtcdManager Ring). load n x.node_meta_map) (sym z) ∙ l),
      )

  -- When the first read succeeds there is a ring, and every node on it is known.
  pub sync_cluster-IsKnown :
      (vs : List Bytes) (e g : EtcdManager Ring)
      → (sync_cluster h decode) (ok vs) e ≡ (g, ok tt)
      → (r : Ring) × (g.ring ≡ some r) × IsKnown g r
  unfolding sync_cluster
  sync_cluster-IsKnown vs e g q =
      put_ring-IsKnown ((read_nodes h decode) vs e []) g
        (λ nodes w.
          read_nodes-stores vs e ((read_nodes h decode) vs e []).0 [] nodes
            (λ i. (((read_nodes h decode) vs e []).0, w i)) (λ n b. elim b [ ]))
        q

  -- Every event of the watch keeps the nodes of the ring known, whatever JSON makes of its value.
  pub handle_event-IsKnown :
      (e : EtcdManager Ring) (r : Ring) (v : Event)
      → e.ring ≡ some r
      → IsKnown e r
      → (s : Ring) × (((handle_event h decode) e r v).0.ring ≡ some s)
        × IsKnown ((handle_event h decode) e r v).0 s
  unfolding handle_event
  handle_event-IsKnown e r v q k = go v.kind (decode v.value).0
    where
      go :
          (c : EventKind) (meta : NodeMeta)
          → (s : Ring) × (((by_kind h decode) c e r meta).0.ring ≡ some s)
            × IsKnown ((by_kind h decode) c e r meta).0 s
      go create meta = (h.add_node r meta.node_id, refl, with_node-IsKnown e r meta k)
      go deleted meta = (h.remove_node r meta.node_id, refl, without_node-IsKnown e r meta k)
      go modify meta = changed_node-IsKnown e r meta q k

  -- etcd sends no value with the deletion of a key. If JSON makes the zero record of an empty value,
  -- then no node with an id leaves the ring or the map at a deletion, although the rebalance hook is
  -- called: a node whose lease ran out keeps its shards.
  pub handle_event-keeps_deleted :
      (e : EtcdManager Ring) (r : Ring) (n : Bytes)
      → (decode []).0.node_id ≡ []
      → n ≢ []
      → let (g, hook) = (handle_event h decode) e r (record { kind = deleted; value = [] }) in
        (s : Ring) × (g.ring ≡ some s)
        × (h.has s n ≡ h.has r n)
        × (load n g.node_meta_map ≡ load n e.node_meta_map)
        × (hook ≡ true)
  unfolding handle_event
  handle_event-keeps_deleted e r n q ne =
      let id = (decode []).0.node_id in
      let other : bytes_same id n ≡ false = unlike id n q ne in
      (
        h.remove_node r id,
        refl,
        h.has-remove_node r id n ∙ rw other,
        load-delete id n e.node_meta_map ∙ rw other,
        refl,
      )
