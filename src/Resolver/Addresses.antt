-- ===== src/Resolver/Addresses.antt =====
-- Which nodes a client is told of.
use vectory.Base.{
  ℕ, ◌≡◌, ◌≢◌, refl, sym, ap, ◌∙◌, subst, true, false, List, [], ◌∷◌, Option, none, some, Bytes,
  bytes_key, load, is_empty, ◌==◌, ==_iff, In, inl, inr, ◌>>=◌, Bool-cases,
}
use vectory.Errors.{Err, Result, ok, err, resolve_index_shard}
use vectory.Shard.{IndexManifest, generate_replica_keys, from_string, zero_shard, valid}
use vectory.Cluster.{Routing, NodeMeta, Floats, weight}
use vectory.Cluster.Routes.{serves, weight-serves}
use vectory.Manager.{IndexManager}
use vectory.Manager.Search.{resolve_unique_shard}
use vectory.Manager.Search.Resolving.{route_replicas-In, resolve_unique_shard-some}
use vectory.Resolver.{
  Address, address_of, convert_routing_to_addrs, report_error, update_state, available,
  with_routings, resolve_now,
}

-- The address is that of the node of the routing, with its weight, which is not zero.
abbrev pub Tells : Floats → Routing → Address → Type 0
Tells fl r a =
    (n : NodeMeta) × (r.node ≡ some n)
    × (a ≡ record { addr = n.addr; server_name = n.node_id; weight = weight fl r })
    × (weight fl r ≢ 0)
    × (serves n.status ≡ true)
    × (is_empty n.addr ≡ false)

-- Two binds that give a result, taken apart.
first_address :
    (node : Option NodeMeta) (w : ℕ) (n : NodeMeta) (o : Option (List Address))
    (found : List Address)
    → node ≡ some n
    → (address_of node w >>= λ a. o >>= λ rest. some (a ∷ rest)) ≡ some found
    → (rest : List Address) × (o ≡ some rest)
      × (found ≡ record { addr = n.addr; server_name = n.node_id; weight = w } ∷ rest)
unfolding address_of
first_address none w n o found e q = absurd (cc)
first_address (some k) w n none found e q = absurd (cc)
first_address (some k) w n (some rest) found e q =
    let same : k ≡ n = cc in
    (
      rest,
      refl,
      subst
          (λ (m : NodeMeta).
            found ≡ record { addr = m.addr; server_name = m.node_id; weight = w } ∷ rest)
          same cc,
    )

convert-In :
    (fl : Floats) (rs : List (Option Routing)) (found : List Address) (a : Address)
    → convert_routing_to_addrs fl rs ≡ some found
    → In a found
    → (r : Routing) × In (some r) rs × Tells fl r a
unfolding convert_routing_to_addrs
convert-In fl [] found a q w =
    let same : found ≡ [] = cc in let z : In a [] = subst (In a) same w in elim z [ ]
convert-In fl (none ∷ rs) found a q w = absurd (cc)
convert-In fl (some r ∷ rs) found a q w = elim (Bool-cases (weight fl r == 0)) [
  | inl t ↦
      let (x, m, v) = convert-In fl rs found a (rw (t, convert_routing_to_addrs) at q) w in
      (x, inr m, v)
  | inr t ↦
      let heavy = some_weight t in
      let (n, e, there, s) = weight-serves fl r heavy in
      let (rest, p, same) =
        first_address r.node (weight fl r) n (convert_routing_to_addrs fl rs) found e
          (rw (t, convert_routing_to_addrs) at q) in
      elim (subst (In a) same w) [
        | inl here ↦ (r, inl refl, (n, e, sym here, heavy, s, there))
        | inr later ↦ let (x, m, v) = convert-In fl rs rest a p later in (x, inr m, v)
      ]
]
  where
    some_weight : (weight fl r == 0) ≡ false → weight fl r ≢ 0
    some_weight t z = let k = (==_iff (weight fl r) 0).1 z in absurd (cc)

reported :
    (fl : Floats) (r : Result (List (Option Routing))) (found : List Address)
    → with_routings fl r ≡ some (update_state found)
    → (rs : List (Option Routing)) × (r ≡ ok rs) × (convert_routing_to_addrs fl rs ≡ some found)
unfolding with_routings available
reported fl (err e) found q = absurd (cc)
reported fl (ok rs) found q = go (convert_routing_to_addrs fl rs) refl q
  where
    go :
        (o : Option (List Address))
        → convert_routing_to_addrs fl rs ≡ o
        → (o >>= λ found. some (available found)) ≡ some (update_state found)
        → (ss : List (Option Routing)) × (ok rs ≡ ok ss)
          × (convert_routing_to_addrs fl ss ≡ some found)
    go none e p = absurd (cc)
    go (some []) e p = absurd (cc)
    go (some (b ∷ bs)) e p = (rs, refl, e ∙ cc)

-- Every address that the client is told of is that of a node to which a replica of the shard of the
-- endpoint is routed without an error, with the weight of that routing, which is not zero; the node is
-- in a status that takes requests.
pub resolve_now-Tells :
    (fl : Floats) (route : Bytes → Option Routing × Option Err) (i : IndexManager)
    (endpoint : Bytes) (found : List Address) (a : Address)
    → resolve_now fl route i endpoint ≡ some (update_state found)
    → In a found
    → (m : IndexManifest) × (ks : List Bytes) × (key : Bytes) × (r : Routing) × (load
          (from_string zero_shard endpoint).index_name
          i.index_manifests
        ≡ some m)
      × (generate_replica_keys (from_string zero_shard endpoint) m.meta.replicas ≡ some ks)
      × In key ks
      × (route key ≡ (some r, none))
      × Tells fl r a
unfolding resolve_now
resolve_now-Tells fl route i endpoint found a q w =
    let s = from_string zero_shard endpoint in
    elim (Bool-cases (valid s)) [
      | inr t ↦
          let z : some (report_error resolve_index_shard) ≡ some (update_state found) = rw t at q in
          absurd (cc)
      | inl t ↦ resolved (resolve_unique_shard route i s) refl (rw t at q)
    ]
  where
    resolved :
        (o : Option (Result (List (Option Routing))))
        → resolve_unique_shard route i (from_string zero_shard endpoint) ≡ o
        → (o >>= with_routings fl) ≡ some (update_state found)
        → (m : IndexManifest) × (ks : List Bytes) × (key : Bytes) × (r : Routing) × (load
              (from_string zero_shard endpoint).index_name
              i.index_manifests
            ≡ some m)
          × (generate_replica_keys (from_string zero_shard endpoint) m.meta.replicas ≡ some ks)
          × In key ks
          × (route key ≡ (some r, none))
          × Tells fl r a
    resolved none e p = absurd (cc)
    resolved (some x) e p =
        let (rs, ok_rs, conv) = reported fl x found p in
        let (m, ks, l, g, same) =
          resolve_unique_shard-some route i (from_string zero_shard endpoint) rs
            (e ∙ ap some ok_rs) in
        let (r, there, v) = convert-In fl rs found a conv w in
        let (key, k, routed) =
          route_replicas-In route ks (some r) (subst (In (some r)) same there) in
        (m, ks, key, r, l, g, k, routed, v)
