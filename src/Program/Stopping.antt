-- ===== src/Program/Stopping.antt =====
-- What etcd says of a node that was stopped.
use vectory.Base.{
  ◌≡◌, ap, ◌∙◌, Option, none, some, Bytes, bytes_key, load, load-store_self, true, sym, subst,
  delete,
}
use vectory.Errors.{Err}
use vectory.Status.{NodeStatus, set_status, current-set_status}
use vectory.Cluster.{Hashring, NodeMeta, EtcdManager}
use vectory.Cluster.Registration.{Member, unregister, Registry, set_node_status}
use vectory.Cluster.Registration.Published.{
  unregister-gone, unregister-deletes, set_node_status-puts,
}
use vectory.Config.Paths.{node_meta_path}
use vectory.Manager.{Tools}
use vectory.Program.{
  Node, ClusterSetting, PutOrder, put_before, put_after, put_never, leaving, left, leave, stop,
}

module _ (h : Hashring) (decode : Bytes → NodeMeta × Option Err) (t : Tools) where
  open h use {Ring}

  -- What is left of the key of the node.
  abbrev pub Remains : PutOrder → NodeMeta → Option NodeMeta → Type 0
  Remains put_after n o = o ≡ some (record n { status = NodeStatus.inactive })
  Remains _ n o = o ≡ none

  leaving-Remains :
      (order : PutOrder) (e : Registry) (g : Member Ring) (n : NodeMeta)
      → load g.manager.node_id g.manager.node_meta_map ≡ some n
      → e.put_error (node_meta_path e.root g.manager.node_id) ≡ none
      → e.delete_error ≡ none
      → Remains order n
          (load (node_meta_path e.root g.manager.node_id) (leaving h decode t order e g).0.metas)
  unfolding leaving
  leaving-Remains put_before e g n known puts dels =
      let put = set_node_status-puts NodeStatus.inactive e g.manager n known puts in
      subst
        (λ (p : Registry × EtcdManager Ring).
          load (node_meta_path e.root g.manager.node_id)
            (unregister p.0 (record g { manager = p.1 })).metas
          ≡ none)
        (sym put) (unregister-gone _ (record g { manager = _ }) dels)
  leaving-Remains put_after e g n known puts dels =
      let gone = unregister-deletes e g dels in
      let put =
        set_node_status-puts NodeStatus.inactive
          (record e { metas = delete (node_meta_path e.root g.manager.node_id) e.metas }) g.manager
          n known puts in
      subst
        (λ (u : Registry).
          load (node_meta_path e.root g.manager.node_id)
            (set_node_status NodeStatus.inactive u g.manager).0.metas
          ≡ some (record n { status = NodeStatus.inactive }))
        (sym gone)
        (ap
            (λ (p : Registry × EtcdManager Ring).
              load (node_meta_path e.root g.manager.node_id) p.0.metas)
            put
          ∙ load-store_self (node_meta_path e.root g.manager.node_id) _ _)
  leaving-Remains put_never e g n known puts dels = unregister-gone e g dels

  -- Stopping a node of a cluster, which knows its own meta and whose writes to etcd succeed, makes it
  -- inactive. Its meta is out of etcd afterwards, unless the goroutine that publishes the status
  -- writes after the key was deleted: then the meta is there again, with the status inactive.
  pub stop-Remains :
      (order : PutOrder) (c : ClusterSetting) (i : Node Ring) (g : Member Ring) (n : NodeMeta)
      → c.enabled ≡ true
      → i.member ≡ some g
      → load g.manager.node_id g.manager.node_meta_map ≡ some n
      → i.registry.put_error (node_meta_path i.registry.root g.manager.node_id) ≡ none
      → i.registry.delete_error ≡ none
      → (j : Node Ring) × (stop h decode t order c i ≡ some j)
        × (j.status.current ≡ NodeStatus.inactive)
        × Remains order n (load (node_meta_path i.registry.root g.manager.node_id) j.registry.metas)
  unfolding stop leave left
  stop-Remains order c i g n e k known puts dels =
      let p = leaving h decode t order i.registry g in
      (
        record i {
          status = set_status NodeStatus.inactive i.status;
          registry = p.0;
          member = some p.1;
        },
        simp (e, k),
        current-set_status NodeStatus.inactive i.status,
        leaving-Remains order i.registry g n known puts dels,
      )
