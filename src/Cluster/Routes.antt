-- ===== src/Cluster/Routes.antt =====
-- What `Route` returns, and the weight of a routing.
use vectory.Base.{
  ℕ, ◌≡◌, ◌≢◌, ◌⊎◌, refl, ap, Bool, true, false, Option, none, some, Bytes, is_empty, inl, inr,
  load, bytes_key, Bool-cases,
}
use vectory.Errors.{Err}
use vectory.Status.{NodeStatus}
use vectory.Cluster.{
  Hashring, EtcdManager, NodeMeta, NodeLoad, Routing, Floats, get_node_meta, node_meta_or, get_node,
  on_ring, by_owner, by_meta, by_status, weight, node_weight, status_weight, load_weight,
}

-- A status in which a node takes requests.
abbrev pub serves : NodeStatus → Bool
serves NodeStatus.healthy = true
serves NodeStatus.rebalancing = true
serves NodeStatus.unhealthy = true
serves _ = false

status_weight-serves :
    (fl : Floats) (w : ℕ) (s : NodeStatus) → status_weight fl w s ≢ 0 → serves s ≡ true
unfolding status_weight
status_weight-serves fl w NodeStatus.healthy p = refl
status_weight-serves fl w NodeStatus.rebalancing p = refl
status_weight-serves fl w NodeStatus.unhealthy p = refl
status_weight-serves fl w _ p = absurd (p refl)

node_weight-serves :
    (fl : Floats) (l : Option NodeLoad) (o : Option NodeMeta)
    → node_weight fl l o ≢ 0
    → (n : NodeMeta) × (o ≡ some n) × (is_empty n.addr ≡ false) × (serves n.status ≡ true)
unfolding node_weight
node_weight-serves fl l none p = absurd (p refl)
node_weight-serves fl l (some n) p = elim (Bool-cases (is_empty n.addr)) [
  | inl e ↦ absurd (p (rw e))
  | inr e ↦ (n, refl, e, status_weight-serves fl (load_weight fl l) n.status (λ z. p (rw e z)))
]

-- A routing has weight only if its node is known, has an address and is in a status that takes
-- requests.
pub weight-serves :
    (fl : Floats) (r : Routing)
    → weight fl r ≢ 0
    → (n : NodeMeta) × (r.node ≡ some n) × (is_empty n.addr ≡ false) × (serves n.status ≡ true)
unfolding weight
weight-serves fl r p = node_weight-serves fl r.load r.node p

-- What an answer of `getNode` says about the known node of a key.
abbrev pub Answers : Option NodeMeta → Option NodeMeta × Option Err → Type 0
Answers known a =
    ((n : NodeMeta) × (known ≡ some n) × (a ≡ (some n, none)) × (serves n.status ≡ true))
    ⊎ ((x : Err) × (a.1 ≡ some x)
        × ((known ≡ none) ⊎ ((n : NodeMeta) × (known ≡ some n) × (serves n.status ≡ false))))

by_status-Answers :
    (n : NodeMeta) (s : NodeStatus) → n.status ≡ s → Answers (some n) (by_status n s)
unfolding by_status
by_status-Answers n NodeStatus.healthy q = inl (n, refl, refl, ap serves q)
by_status-Answers n NodeStatus.rebalancing q = inl (n, refl, refl, ap serves q)
by_status-Answers n NodeStatus.unhealthy q = inl (n, refl, refl, ap serves q)
by_status-Answers n s q = inr (_, refl, inr (n, refl, ap serves q))

by_meta-Answers : (o : Option NodeMeta) → Answers o (by_meta (node_meta_or o))
unfolding by_meta node_meta_or
by_meta-Answers none = inr (_, refl, inl refl)
by_meta-Answers (some n) = by_status-Answers n n.status refl

module _ (h : Hashring) where
  open h use {Ring}

  -- On a ring that gives the key to a node, `getNode` answers without an error exactly if that node
  -- is known and in a status that takes requests, and then with that node.
  pub get_node-Answers :
      (e : EtcdManager Ring) (r : Ring) (key id : Bytes)
      → e.ring ≡ some r
      → h.get_node r key ≡ some id
      → Answers (load id e.node_meta_map) (get_node h e key)
  unfolding get_node on_ring by_owner get_node_meta
  get_node-Answers e r key id q w = simp (q, w) (by_meta-Answers (load id e.node_meta_map))
