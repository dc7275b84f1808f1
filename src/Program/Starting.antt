-- ===== src/Program/Starting.antt =====
-- What the status of a node says after its start.
use vectory.Base.{
  ◌≡◌, ◌⊎◌, inl, inr, refl, sym, ap, ◌∙◌, subst, Bool, true, List, [], Option, none, some, Bytes,
  bytes_key, load, In, All, if◌then◌else◌, arith, false,
}
use vectory.Errors.{Err, ok, no_success, Result, err}
use vectory.Status.{NodeStatus, set_status, current-set_status}
use vectory.Shard.{Shard, IndexManifest, shard_key, unique_shard_key, shard_as_key, generate_shards}
use vectory.Index.{Index}
use vectory.Cluster.{Hashring, NodeMeta, EtcdManager}
use vectory.Cluster.Registration.{Member, Registry}
use vectory.Manager.{IndexManager, Mode, Tools, needs_in, single, cluster}
use vectory.Manager.Rebalance.Steps.{bind_some}
use vectory.Manager.Start.{collect, init_manager}
use vectory.Manager.Start.Complete.{IsLoadable, Tells, init_manager-Tells, init_manager-Complete}
use vectory.Program.{
  Outside, Node, status_for, goes_on, owns_of, sources_of, settle, start_engine, mode_of, listening,
  start, registered, synced, ClusterSetting,
}

healthy_only : (e : Option Err) → status_for e ≡ NodeStatus.healthy → e ≡ none
healthy_only none q = refl
healthy_only (some e) q = ground arith

-- What the status tells after a start, given the error of `Start`.
abbrev pub StatusTells : NodeStatus → IndexManager → Option Err → Type 0
StatusTells s i x =
    ((s ≡ NodeStatus.healthy) × (i.pending_shards ≡ []))
    ⊎ ((s ≡ NodeStatus.unhealthy) × ((p : Shard) × (load p i.pending_shards ≡ some true)))
    ⊎ ((s ≡ NodeStatus.inactive)
        × (x ≡ some no_success)
        × ((p : Shard) × (load p i.pending_shards ≡ some true)))

settled :
    (i : IndexManager) (e ended : Option Err)
    → Tells i e
    → StatusTells (status_for e) i (if goes_on e then ended else e)
settled i e ended (inl (q, clean)) = rw q (inl (refl, clean))
settled i e ended (inr (inl q, p)) = rw q (inr (inl (refl, p)))
settled i e ended (inr (inr q, p)) = rw q (inr (inr (refl, refl, p)))

module _ (h : Hashring) (decode : Bytes → NodeMeta × Option Err) (t : Tools) where
  open h use {Ring}

  -- If the cluster manager is there in cluster mode, the manifests could be read, their products fit
  -- int32 and those of FAISS have a source, loading ends with a status that tells what is pending: healthy if nothing is, unhealthy if something is; or, if nothing at all could be
  -- loaded, inactive, and then the start returns an error.
  pub start_engine-StatusTells :
      (o : Outside) (mode : Mode) (n : Node Ring) (need : Bytes → Bool) (ms : List IndexManifest)
      → needs_in mode (owns_of h decode t n.member) ≡ some need
      → collect (sources_of h decode t o n.member) mode ≡ ok ms
      → All IsLoadable (o.order ms)
      → (m : Node Ring) × (x : Option Err) × (i : IndexManager) × (start_engine h decode t o mode n
          ≡ some (m, x))
        × (m.engine ≡ some i)
        × StatusTells m.status.current i x
  unfolding start_engine settle sources_of
  start_engine-StatusTells o mode n need ms w g l =
      let (i, e, run, tells) =
        init_manager-Tells t (sources_of h decode t o n.member) mode
          (set_status NodeStatus.init n.status) n.native need ms w g l in
      let (m, x) = settle h decode t o n (i, e) in
      let after = record i { status = set_status (status_for e) i.status } in
      (
        m,
        x,
        after,
        rw run refl,
        refl,
        subst (λ s. StatusTells s after (if goes_on e then o.ended else e))
            (sym (current-set_status (status_for e) i.status)) (settled after e o.ended tells),
      )

  -- A shard that the node needs, of a manifest that could be read.
  abbrev pub Needed : Outside → Mode → Option (Member Ring) → Shard → Type 0
  Needed o mode member s =
      (need : Bytes → Bool) × (ms : List IndexManifest) × (m : IndexManifest) × (ss : List Shard)
      × (needs_in mode (owns_of h decode t member) ≡ some need)
      × (collect (sources_of h decode t o member) mode ≡ ok ms)
      × In m (o.order ms)
      × (generate_shards m ≡ some ss)
      × In s ss
      × (need (shard_key s) ≡ true)

  engine_Complete :
      (o : Outside) (mode : Mode) (n m : Node Ring) (x : Option Err) (i : IndexManager) (s : Shard)
      → start_engine h decode t o mode n ≡ some (m, x)
      → m.status.current ≡ NodeStatus.healthy
      → m.engine ≡ some i
      → Needed o mode m.member s
      → (y : Index) × (load (unique_shard_key s) i.engine_store ≡ some y)
  unfolding start_engine settle sources_of
  engine_Complete o mode n m x i s q healthy loaded d =
      let ((j, e), run, last) =
        bind_some
          (init_manager t (sources_of h decode t o n.member) mode
            (set_status NodeStatus.init n.status) n.native)
          _ (m, x) q in
      let same : settle h decode t o n (j, e) ≡ (m, x) = cc in
      let told = ap (λ (p : Node Ring × Option Err). p.0.status.current) same ∙ healthy in
      let quiet : e ≡ none =
        healthy_only e (sym (current-set_status (status_for e) j.status) ∙ told) in
      let engine : some (record j { status = set_status (status_for e) j.status }) ≡ some i =
        ap (λ (p : Node Ring × Option Err). p.0.engine) same ∙ loaded in
      let whole : record j { status = set_status (status_for e) j.status } ≡ i = cc in
      let member = ap (λ (p : Node Ring × Option Err). p.0.member) same in
      let (need, ms, im, ss, w, g, v, l, u, k) = subst (λ y. Needed o mode y s) (sym member) d in
      let found =
        init_manager-Complete t (sources_of h decode t o n.member) mode
          (set_status NodeStatus.init n.status) n.native need ms j im ss s w g
          (subst
            (λ y.
              init_manager t (sources_of h decode t o n.member) mode
                (set_status NodeStatus.init n.status) n.native
              ≡ some (j, y))
            quiet run)
          v l u k in
      subst
        (λ (y : IndexManager). (z : Index) × (load (unique_shard_key s) y.engine_store ≡ some z))
        whole found

  abbrev stopped_at : Node Ring → Option Err → Option (Node Ring × Option Err)
  stopped_at n x = some (n, x)

  -- A start that was broken off left the status as it was.
  not_started :
      (n m : Node Ring) (x y : Option Err)
      → stopped_at n y ≡ stopped_at m x
      → n.status.current ≡ NodeStatus.start
      → m.status.current ≡ NodeStatus.healthy
      → ⊥
  not_started n m x y q a b =
      let same : n ≡ m = cc in
      let z : NodeStatus.start ≡ NodeStatus.healthy =
        sym a ∙ ap (λ (p : Node Ring). p.status.current) same ∙ b in
      absurd (cc)

  synced_Complete :
      (o : Outside) (n m : Node Ring) (x : Option Err) (i : IndexManager) (s : Shard)
      (g : Member Ring) (r : EtcdManager Ring × Result (Unit {0}))
      → n.status.current ≡ NodeStatus.start
      → synced h decode t o n g r ≡ some (m, x)
      → m.status.current ≡ NodeStatus.healthy
      → m.engine ≡ some i
      → Needed o cluster m.member s
      → (y : Index) × (load (unique_shard_key s) i.engine_store ≡ some y)
  unfolding synced
  synced_Complete o n m x i s g (e, err z) a q b l d =
      absurd
        (not_started (record n { member = some (record g { manager = e }) }) m x (some z) q a b)
  synced_Complete o n m x i s g (e, ok u) a q b l d =
      engine_Complete o cluster (record n { member = some (record g { manager = e }) }) m x i s q b
        l d

  registered_Complete :
      (c : ClusterSetting) (o : Outside) (n m : Node Ring) (x : Option Err) (i : IndexManager)
      (s : Shard) (r : Registry × Member Ring × Option Err)
      → n.status.current ≡ NodeStatus.start
      → registered h decode t c o n r ≡ some (m, x)
      → m.status.current ≡ NodeStatus.healthy
      → m.engine ≡ some i
      → Needed o cluster m.member s
      → (y : Index) × (load (unique_shard_key s) i.engine_store ≡ some y)
  unfolding registered
  registered_Complete c o n m x i s (g, k, some z) a q b l d =
      absurd (not_started (record n { registry = g; member = some k }) m x (some z) q a b)
  registered_Complete c o n m x i s (g, k, none) a q b l d =
      synced_Complete o (record n { registry = g }) m x i s k _ a q b l d

  listening_Complete :
      (c : ClusterSetting) (o : Outside) (n m : Node Ring) (x : Option Err) (i : IndexManager)
      (s : Shard) (e : Option Err) (enabled : Bool)
      → c.enabled ≡ enabled
      → n.status.current ≡ NodeStatus.start
      → listening h decode t c o n e ≡ some (m, x)
      → m.status.current ≡ NodeStatus.healthy
      → m.engine ≡ some i
      → Needed o (mode_of enabled) m.member s
      → (y : Index) × (load (unique_shard_key s) i.engine_store ≡ some y)
  unfolding listening
  listening_Complete c o n m x i s (some z) enabled f a q b l d =
      absurd (not_started n m x (some z) q a b)
  listening_Complete c o n m x i s none true f a q b l d =
      registered_Complete c o n m x i s _ a (rw f at q) b l d
  listening_Complete c o n m x i s none false f a q b l d =
      engine_Complete o single n m x i s (rw f at q) b l d

  -- A node whose status is healthy after its start has loaded every shard that it needs, of every
  -- manifest that could be read: each of them in single mode, and in cluster mode those that the ring it
  -- has got from etcd gives to it.
  pub start-Complete :
      (c : ClusterSetting) (o : Outside) (n m : Node Ring) (x : Option Err) (i : IndexManager)
      (s : Shard)
      → n.status.current ≡ NodeStatus.start
      → start h decode t c o n ≡ some (m, x)
      → m.status.current ≡ NodeStatus.healthy
      → m.engine ≡ some i
      → Needed o (mode_of c.enabled) m.member s
      → (y : Index) × (load (unique_shard_key s) i.engine_store ≡ some y)
  unfolding start
  start-Complete c o n m x i s a q b l d =
      listening_Complete c o n m x i s o.listen_error c.enabled refl a q b l d
