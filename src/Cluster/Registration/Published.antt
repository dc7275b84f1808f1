-- ===== src/Cluster/Registration/Published.antt =====
-- What the registry says of a node, against the statuses that were set.
use vectory.Base.{
  ◌≡◌, refl, ap, ◌∙◌, List, [], ◌∷◌, Option, none, some, Bytes, bytes_key, load, load-store_self,
  load-delete_self, store, delete,
}
use vectory.Errors.{Err}
use vectory.Status.{NodeStatus, Status, IsHistory, latest, start}
use vectory.Config.Paths.{node_meta_path}
use vectory.Cluster.{NodeMeta, EtcdManager, get_node_meta, node_meta_or}
use vectory.Cluster.Registration.{
  Registry, put_meta, meta_put, with_status, set_node_status, publish, with_keep_alive, Member,
  unregister, remove_meta,
}

-- The node `id` is known to itself, and the registry says the same of it under the key, with the
-- status.
record Says {R : Type 0} (id key : Bytes) (s : NodeStatus) (n : NodeMeta) (e : Registry)
    (m : EtcdManager R) : Type 0 where
  own : m.node_id ≡ id
  path : node_meta_path e.root m.node_id ≡ key
  known : load m.node_id m.node_meta_map ≡ some (record n { status = s })
  registered : load key e.metas ≡ some (record n { status = s })
  puts : e.put_error key ≡ none

module _ {R : Type 0} (id key : Bytes) (n : NodeMeta) where
  set_node_status-Says :
      (s t : NodeStatus) (e : Registry) (m : EtcdManager R)
      → Says id key t n e m
      → Says id key s n (set_node_status s e m).0 (set_node_status s e m).1
  unfolding set_node_status with_status get_node_meta node_meta_or meta_put put_meta
  set_node_status-Says s t e m v =
      rw (v.known, v.path, v.puts)
        (record {
          own = v.own;
          path = v.path;
          known = load-store_self m.node_id _ m.node_meta_map;
          registered = load-store_self key _ e.metas;
          puts = v.puts;
        })

  publish-Says :
      (ss : List NodeStatus) (t : NodeStatus) (e : Registry) (m : EtcdManager R)
      → Says id key t n e m
      → Says id key (latest t ss) n (publish ss e m).0 (publish ss e m).1
  unfolding publish
  publish-Says [] t e m v = v
  publish-Says (s ∷ []) t e m v = set_node_status-Says s t e m v
  publish-Says (s ∷ u ∷ ss) t e m v =
      set_node_status-Says s (latest t (u ∷ ss)) _ _ (publish-Says (u ∷ ss) t e m v)

-- Once the goroutine that `Register` started has read all statuses that were set, the registry says
-- of this node what its status is: if the node knew itself and was registered with the first status
-- before, and writes of its key succeed.
pub publish-current :
    {R : Type 0} (p : Status) (n : NodeMeta) (e : Registry) (m : EtcdManager R)
    → IsHistory p
    → load m.node_id m.node_meta_map ≡ some (record n { status = start })
    → load (node_meta_path e.root m.node_id) e.metas ≡ some (record n { status = start })
    → e.put_error (node_meta_path e.root m.node_id) ≡ none
    → load (node_meta_path e.root m.node_id) (publish p.sent e m).0.metas
      ≡ some (record n { status = p.current })
publish-current p n e m v known registered puts =
    let said =
      publish-Says m.node_id (node_meta_path e.root m.node_id) n p.sent start e m
        (record { own = refl; path = refl; known = known; registered = registered; puts = puts }) in
    said.registered ∙ ap (λ s. some (record n { status = s })) v.ends

registered_start :
    {R : Type 0} (e : Registry) (m : Member R) (n : NodeMeta) (o : Option Err)
    → (with_keep_alive e m n o).2 ≡ none
    → (load (node_meta_path e.root m.manager.node_id) (with_keep_alive e m n o).0.metas ≡ some n)
      × ((with_keep_alive e m n o).1 ≡ m)
unfolding with_keep_alive meta_put
registered_start e m n (some x) q = absurd (cc)
registered_start e m n none q =
    (stored (e.put_error (node_meta_path e.root m.manager.node_id)) q, refl)
  where
    stored :
        (o : Option Err)
        → (put_meta e (node_meta_path e.root m.manager.node_id) n o).1 ≡ none
        → load
            (node_meta_path e.root m.manager.node_id)
            (put_meta e (node_meta_path e.root m.manager.node_id) n o).0.metas
          ≡ some n
    stored (some x) z = absurd (cc)
    stored none z = load-store_self (node_meta_path e.root m.manager.node_id) n e.metas

pub unregister-gone :
    {R : Type 0} (e : Registry) (m : Member R)
    → e.delete_error ≡ none
    → load (node_meta_path e.root m.manager.node_id) (unregister e m).metas ≡ none
unfolding unregister remove_meta
unregister-gone e m d = rw d (load-delete_self (node_meta_path e.root m.manager.node_id) e.metas)

-- A node that knows its own meta writes it with the new status.
pub set_node_status-puts :
    {R : Type 0} (s : NodeStatus) (e : Registry) (m : EtcdManager R) (n : NodeMeta)
    → load m.node_id m.node_meta_map ≡ some n
    → e.put_error (node_meta_path e.root m.node_id) ≡ none
    → set_node_status s e m ≡ (
      record e {
        metas = store (node_meta_path e.root m.node_id) (record n { status = s }) e.metas;
      },
      record m { node_meta_map = store m.node_id (record n { status = s }) m.node_meta_map },
    )
unfolding set_node_status with_status get_node_meta node_meta_or meta_put put_meta
set_node_status-puts s e m n known puts = rw (known, puts) refl

pub unregister-deletes :
    {R : Type 0} (e : Registry) (m : Member R)
    → e.delete_error ≡ none
    → unregister e m ≡ record e { metas = delete (node_meta_path e.root m.manager.node_id) e.metas }
unfolding unregister remove_meta
unregister-deletes e m d = rw d refl
