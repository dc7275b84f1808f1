-- ===== src/Tests/Nodes.antt =====
-- Nodes, their ring, their keys in etcd and their status.
use vectory.Base.{
  arith, Bool-cases, ◌≡◌, ◌≢◌, refl, inl, inr, true, false, List, [], ◌∷◌, Option, none, some,
  Bytes, codes, bytes_same, bytes_key, load, store,
}
use vectory.Errors.{Err, ok, plain}
use vectory.Status.{NodeStatus, IsHistory, initial}
use vectory.Cluster.{NodeMeta, EtcdManager, Routing, Floats, need_load, get_owner_node}
use vectory.Cluster.Owner.{need_load-get_owner_node}
use vectory.Cluster.Watch.{sync_cluster, handle_event, create, deleted, modify}
use vectory.Cluster.Watch.Known.{
  IsKnown, sync_cluster-IsKnown, handle_event-IsKnown, handle_event-keeps_deleted,
}
use vectory.Tests.Data.{last_added, list_has, node_a, sees_a}
use vectory.Cluster.Watch.Draining.{handle_event-drained}

abbrev ring_a : List Bytes
ring_a = codes "a" ∷ []

-- An empty value decodes to the zero record, with an error; every other one to the node a.
abbrev decode : Bytes → NodeMeta × Option Err
decode [] =
    (record { node_id = []; addr = []; status = NodeStatus.other [] }, some (plain (codes "EOF")))
decode (c ∷ s) = (node_a, none)

need_load-get_owner_node_example :
    (o : Bytes) × (get_owner_node last_added sees_a (codes "b:0:0") ≡ o)
    × (list_has ring_a o ≡ true)
    × (need_load last_added sees_a (codes "b:0:0") ≡ some (bytes_same o (codes "a")))
need_load-get_owner_node_example =
    need_load-get_owner_node last_added sees_a ring_a (codes "b:0:0") (codes "a") refl refl

a_needs : need_load last_added sees_a (codes "b:0:0") ≡ some true
unfolding need_load
a_needs = refl

a_needs_too :
    need_load last_added (record sees_a { attached_load = true }) (codes "b:0:0") ≡ some true
unfolding need_load
a_needs_too = refl

ring_a-IsKnown : IsKnown last_added decode sees_a ring_a
unfolding load
ring_a-IsKnown n q = elim (Bool-cases (bytes_same (codes "a") n)) [
  | inl t ↦ (node_a, rw t)
  | inr t ↦ absurd (absent t)
]
  where
    absent : bytes_same (codes "a") n ≡ false → ⊥
    absent t = ground arith

handle_event-IsKnown_example :
    (s : List Bytes) × ((handle_event last_added decode sees_a ring_a
        (record { kind = create; value = 1 ∷ [] })).0.ring
      ≡ some s)
    × IsKnown last_added decode
        (handle_event last_added decode sees_a ring_a (record { kind = create; value = 1 ∷ [] })).0
        s
handle_event-IsKnown_example =
    handle_event-IsKnown last_added decode sees_a ring_a (record { kind = create; value = 1 ∷ [] })
      refl ring_a-IsKnown

handle_event-keeps_deleted_example :
    let (g, hook) =
      handle_event last_added decode sees_a ring_a (record { kind = deleted; value = [] }) in
    (s : List Bytes) × (g.ring ≡ some s)
    × (list_has s (codes "a") ≡ true)
    × (load (codes "a") g.node_meta_map ≡ load (codes "a") sees_a.node_meta_map)
    × (hook ≡ true)
handle_event-keeps_deleted_example =
    handle_event-keeps_deleted last_added decode sees_a ring_a (codes "a") refl (λ e. absurd (cc))

abbrev starting : EtcdManager (List Bytes)
starting = record { node_id = codes "a"; ring = none; node_meta_map = []; attached_load = false }

started : sync_cluster last_added decode (ok ((1 ∷ []) ∷ [])) starting ≡ (sees_a, ok tt)
unfolding sync_cluster store
started = refl

sync_cluster-IsKnown_example :
    (r : List Bytes) × (some ring_a ≡ some r) × IsKnown last_added decode sees_a r
sync_cluster-IsKnown_example =
    sync_cluster-IsKnown last_added decode ((1 ∷ []) ∷ []) starting sees_a started

abbrev pub floats : Floats
floats = record { idle_weight = λ c. 500; tenth = λ w. 50 }

abbrev pub to_a : Routing
to_a = record { node = some node_a; load = none }

at_start-IsHistory : IsHistory initial
at_start-IsHistory = record { ends = refl; changes = tt }

-- Another node becomes inactive.
abbrev decode_inactive : Bytes → NodeMeta × Option Err
decode_inactive v = (record node_a { status = NodeStatus.inactive }, none)

handle_event-drained_example :
    let (g, hook) =
      handle_event last_added decode_inactive sees_a ring_a
        (record { kind = modify; value = [] }) in
    (hook ≡ true) × (get_owner_node last_added g (codes "b:0:0") ≢ codes "a")
handle_event-drained_example =
    handle_event-drained last_added decode_inactive sees_a ring_a [] (codes "b:0:0") refl
      (λ e. absurd (cc))
