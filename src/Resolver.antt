-- ===== src/Resolver.antt =====
-- internal/grpc_client/resolver.go: how the addresses of the nodes that have a shard are found. The
-- routes of the cluster manager and floating-point arithmetic are arguments.
pub mod Addresses
pub mod Life
pub mod Client
use vectory.Base.{
  ℕ, ◌≡◌, Bool, true, false, not, List, [], ◌∷◌, Option, none, some, Bytes, ◌==◌, ◌>>=◌,
  if◌then◌else◌,
}
use vectory.Errors.{Err, resolve_index_shard, resolve_no_available_node, Result, ok, err}
use vectory.Shard.{zero_shard, from_string, valid}
use vectory.Cluster.{Routing, NodeMeta, Floats, weight}
use vectory.Manager.{IndexManager}
use vectory.Manager.Search.{resolve_unique_shard}

-- `resolver.Address` with the weight that the balancer reads.
pub record Address : Type 0 where
  pub addr : Bytes
  pub server_name : Bytes
  pub weight : ℕ

-- A node that is nil has no weight, so that the first clause is not reached.
address_of : Option NodeMeta → ℕ → Option Address
address_of none w = none
address_of (some n) w = some (record { addr = n.addr; server_name = n.node_id; weight = w })

-- `convertRoutingToAddrs`; `none` is a panic.
unfoldable pub convert_routing_to_addrs : Floats → List (Option Routing) → Option (List Address)
unfolding address_of
convert_routing_to_addrs fl [] = some []
convert_routing_to_addrs fl (none ∷ rs) = none
convert_routing_to_addrs fl (some r ∷ rs) =
    let rest = convert_routing_to_addrs fl rs in
    if weight fl r == 0
    then rest
    else (address_of r.node (weight fl r) >>= λ a. rest >>= λ found. some (a ∷ found))

-- What `ResolveNow` tells the client connection.
pub data Report : Type 0 where
  report_error : Err → Report
  update_state : List Address → Report

available : List Address → Report
available [] = report_error resolve_no_available_node
available (a ∷ rest) = update_state (a ∷ rest)

with_routings : Floats → Result (List (Option Routing)) → Option Report
unfolding available
with_routings fl (err e) = some (report_error e)
with_routings fl (ok rs) = (convert_routing_to_addrs fl rs >>= λ found. some (available found))

-- `ResolveNow`; `none` is a panic.
unfoldable pub resolve_now :
    Floats → (Bytes → Option Routing × Option Err) → IndexManager → Bytes → Option Report
unfolding with_routings
resolve_now fl route i endpoint =
    let s = from_string zero_shard endpoint in
    if not (valid s)
    then some (report_error resolve_index_shard)
    else (resolve_unique_shard route i s >>= with_routings fl)
