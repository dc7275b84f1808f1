-- ===== src/Cluster/Registration.antt =====
-- internal/cluster/node.go: how a node makes itself known in etcd. The values of its keys are kept as
-- what JSON reads back from them; the answers of etcd and of the operating system are arguments.
pub mod Published
use vectory.Base.{
  ℕ, ◌+◌, ◌≡◌, Bool, true, false, List, [], ◌∷◌, Option, none, some, Bytes, codes, bytes_same,
  bytes_key, Map, load, store, delete, map, ℤ, if◌then◌else◌, leb, ◌&&◌,
}
use vectory.Errors.{Err, Result, ok, err}
use vectory.Status.{NodeStatus}
use vectory.Config.Paths.{node_meta_path, node_load_path}
use vectory.Cluster.{NodeMeta, NodeLoad, EtcdManager, get_node_meta}

-- What etcd holds of the nodes under the root, and what it answers.
pub record Registry : Type 0 where
  pub root : Bytes
  pub metas : Map Bytes NodeMeta
  pub loads : Map Bytes NodeLoad
  pub grant : Result ℤ
  pub keep_alive_error : Option Err
  pub put_error : Bytes → Option Err
  pub delete_error : Option Err

-- A cluster manager with its lease.
pub record Member (R : Type 0) : Type 0 where
  pub manager : EtcdManager R
  pub lease : Option ℤ

-- `InitEtcdManager`
unfoldable pub init_etcd_manager : {R : Type 0} → Bytes → Member R
init_etcd_manager id = record {
  manager = record { node_id = id; ring = none; node_meta_map = []; attached_load = false };
  lease = none;
}

put_meta : Registry → Bytes → NodeMeta → Option Err → Registry × Option Err
put_meta e key n (some x) = (e, some x)
put_meta e key n none = (record e { metas = store key n e.metas }, none)

meta_put : Registry → Bytes → NodeMeta → Registry × Option Err
unfolding put_meta
meta_put e key n = put_meta e key n (e.put_error key)

with_keep_alive :
    {R : Type 0} → Registry → Member R → NodeMeta → Option Err → Registry × Member R × Option Err
unfolding meta_put
with_keep_alive e m n (some x) = (e, m, some x)
with_keep_alive e m n none =
    let done = meta_put e (node_meta_path e.root m.manager.node_id) n in (done.0, m, done.1)

with_lease :
    {R : Type 0} → Registry → Member R → NodeMeta → Result ℤ → Registry × Member R × Option Err
unfolding with_keep_alive
with_lease e m n (err x) = (e, record m { lease = none }, some x)
with_lease e m n (ok id) = with_keep_alive e (record m { lease = some id }) n e.keep_alive_error

-- `Register`, with the address of the listener. If it succeeds each status that is set later is
-- published by `set_node_status`.
unfoldable pub register :
    {R : Type 0} → Bytes → Registry → Member R → Registry × Member R × Option Err
unfolding with_lease
register addr e m =
    with_lease e m (record { node_id = m.manager.node_id; addr = addr; status = NodeStatus.start })
      e.grant

remove_meta : Registry → Bytes → Option Err → Registry
remove_meta e key (some x) = e
remove_meta e key none = record e { metas = delete key e.metas }

-- `Unregister`; an error is only logged.
unfoldable pub unregister : {R : Type 0} → Registry → Member R → Registry
unfolding remove_meta
unregister e m = remove_meta e (node_meta_path e.root m.manager.node_id) e.delete_error

-- strings.ToLower on ASCII; the value is only compared with `cpu`, and no other character has one of
-- its letters for a lower case.
abbrev lower_byte : ℕ → ℕ
lower_byte c = if leb 65 c && leb c 90 then c + 32 else c

-- `LBModeType.Standard`
unfoldable pub standard : Bytes → Bytes
standard s = map lower_byte s

-- `ReportLoad`: whether the reporting goroutine is started, by the second part.
unfoldable pub report_load : {R : Type 0} → Bytes → EtcdManager R → EtcdManager R × Bool
report_load policy e =
    if e.attached_load
    then (e, false)
    else if bytes_same (standard policy) (codes "cpu")
    then (record e { attached_load = true }, true)
    else (e, false)

put_load : Registry → Bytes → NodeLoad → Option Err → Registry
put_load e key l (some x) = e
put_load e key l none = record e { loads = store key l e.loads }

with_memory : {R : Type 0} → Registry → EtcdManager R → ℕ → Result ℕ → Registry
unfolding put_load
with_memory e m cpu (err x) = e
with_memory e m cpu (ok free) =
    let key = node_load_path e.root m.node_id in
    put_load e key (record { cpu = cpu; mem_free = free }) (e.put_error key)

-- One round of the goroutine of `ReportLoad`: the usage of the processor, as a list, and the free
-- memory, as the system answers; the round is given up at the first error.
unfoldable pub report_round :
    {R : Type 0} → Registry → EtcdManager R → Result (List ℕ) → Result ℕ → Registry
unfolding with_memory
report_round e m (err x) free = e
report_round e m (ok []) free = e
report_round e m (ok (c ∷ cs)) free = with_memory e m c free

-- The meta that the map holds is one object with the one that is changed, so the map changes too.
with_status :
    {R : Type 0}
    → NodeStatus
    → Registry
    → EtcdManager R
    → Result NodeMeta
    → Registry × EtcdManager R
unfolding meta_put
with_status s e m (err x) = (e, m)
with_status s e m (ok n) =
    let changed = record n { status = s } in
    (
      (meta_put e (node_meta_path e.root m.node_id) changed).0,
      record m { node_meta_map = store m.node_id changed m.node_meta_map },
    )

-- `setNodeStatus`; errors are only logged.
unfoldable pub set_node_status :
    {R : Type 0} → NodeStatus → Registry → EtcdManager R → Registry × EtcdManager R
unfolding with_status
set_node_status s e m = with_status s e m (get_node_meta m m.node_id)

-- The goroutine that `Register` starts, on the statuses that were sent, newest first.
unfoldable pub publish :
    {R : Type 0} → List NodeStatus → Registry → EtcdManager R → Registry × EtcdManager R
publish [] e m = (e, m)
publish (s ∷ ss) e m = let before = publish ss e m in set_node_status s before.0 before.1
