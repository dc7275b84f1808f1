-- ===== src/Tests/Routes.antt =====
-- Resolving the second shard of the index of Data, both of whose replicas are routed to the node a.
use vectory.Base.{
  ◌≡◌, refl, inl, List, [], ◌∷◌, Option, none, some, Bytes, codes, load, bytes_key, In, split, atoi,
}
use vectory.Errors.{Err}
use vectory.Shard.{IndexManifest, from_string, zero_shard, generate_replica_keys, valid, count_up}
use vectory.Cluster.{Routing, weight}
use vectory.Manager.Search.{resolve_unique_shard, route_replicas}
use vectory.Resolver.{Address, update_state, resolve_now, convert_routing_to_addrs}
use vectory.Resolver.Addresses.{Tells, resolve_now-Tells}
use vectory.Tests.Managers.{balanced}
use vectory.Tests.Nodes.{floats, to_a}

abbrev pub all_to_a : Bytes → Option Routing × Option Err
all_to_a key = (some to_a, none)

abbrev address_a : Address
address_a = record { addr = codes "1.2.3.4"; server_name = codes "a"; weight = 1000 }

resolves :
    resolve_now floats all_to_a balanced (codes "b:1")
    ≡ some (update_state (address_a ∷ address_a ∷ []))
unfolding resolve_now from_string split atoi valid resolve_unique_shard load generate_replica_keys
    count_up route_replicas convert_routing_to_addrs weight
resolves = refl

resolve_now-Tells_example :
    (m : IndexManifest) × (ks : List Bytes) × (key : Bytes) × (r : Routing) × (load
        (from_string zero_shard (codes "b:1")).index_name
        balanced.index_manifests
      ≡ some m)
    × (generate_replica_keys (from_string zero_shard (codes "b:1")) m.meta.replicas ≡ some ks)
    × In key ks
    × (all_to_a key ≡ (some r, none))
    × Tells floats r address_a
resolve_now-Tells_example =
    resolve_now-Tells floats all_to_a balanced (codes "b:1") (address_a ∷ address_a ∷ []) address_a
      resolves (inl refl)
