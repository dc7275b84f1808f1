-- ===== src/Cluster/Owner.antt =====
-- Which node loads a shard.
use vectory.Base.{
  ◌≡◌, sym, ap, ◌∙◌, true, Option, none, some, Bytes, bytes_same, bytes_same_iff, Option-cases, inl,
  inr,
}
use vectory.Cluster.{
  Hashring, EtcdManager, need_load, need_on, is_node, get_owner_node, owner_on, owner_or_empty,
}

some_same : {A : Type 0} {a b : A} → some a ≡ some b → a ≡ b
some_same e = cc

module _ (h : Hashring) where
  open h use {Ring}

  -- On a ring with a node every key has one owner: the node that GetOwnerNode names, which is on the
  -- ring, and a manager with that ring needs the shard exactly if it is that node.
  pub need_load-get_owner_node :
      (e : EtcdManager Ring) (r : Ring) (key n : Bytes)
      → e.ring ≡ some r
      → h.has r n ≡ true
      → (o : Bytes) × (get_owner_node h e key ≡ o)
        × (h.has r o ≡ true)
        × (need_load h e key ≡ some (bytes_same o e.node_id))
  unfolding need_load need_on get_owner_node owner_on owner_or_empty is_node
  need_load-get_owner_node e r key n q w = elim (Option-cases (h.get_node r key)) [
    | inl l ↦ absurd (let z = h.get_node-none r key n l in cc)
    | inr (o, l) ↦ (o, simp (q, l), h.has-get_node r key o l, simp (q, l))
  ]

  is_node-same : (o : Option Bytes) (id : Bytes) → is_node h o id ≡ true → o ≡ some id
  unfolding is_node
  is_node-same none id q = absurd (cc)
  is_node-same (some n) id q = ap some ((bytes_same_iff n id).0 q)

  -- Two managers that see the same ring never both need a shard, unless they are the same node.
  pub need_load_unique :
      (e f : EtcdManager Ring) (key : Bytes)
      → e.ring ≡ f.ring
      → need_load h e key ≡ some true
      → need_load h f key ≡ some true
      → e.node_id ≡ f.node_id
  unfolding need_load need_on
  need_load_unique e f key same p q =
      one_node f.ring (ap (need_on h e.node_id key) (sym same) ∙ p) q
    where
      one_node :
          (r : Option Ring)
          → need_on h e.node_id key r ≡ some true
          → need_on h f.node_id key r ≡ some true
          → e.node_id ≡ f.node_id
      one_node none a b = absurd (cc)
      one_node (some r) a b =
          let p = is_node-same (h.get_node r key) e.node_id (some_same a) in
          let q = is_node-same (h.get_node r key) f.node_id (some_same b) in some_same (sym p ∙ q)
