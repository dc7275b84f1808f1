-- ===== src/Resolver/Client.antt =====
-- `GetShardClient` of internal/grpc_client/client.go, and what the resolver of its connection is asked
-- for. grpc.Dial, the state of a connection and the endpoint that gRPC takes from a URL are arguments; a
-- connection is its number.
use vectory.Base.{
  ◌≡◌, refl, Bool, true, false, not, [], ◌++◌, Option, none, some, Bytes, bytes_key, codes, ℕ, Map,
  load, store, all, ◌==◌, if◌then◌else◌, load-store_self, Bool-cases, inl, inr, split,
}
use vectory.Errors.{Err, Result, ok, err, resolve_index_shard}
use vectory.Shard.{Shard, unique_shard_key, from_string, valid}
use vectory.Cluster.{Routing, Floats}
use vectory.Manager.{IndexManager}
use vectory.Resolver.{report_error, resolve_now}

-- `shardConnMap`
abbrev pub Conns : Type 0
Conns = Map Bytes ℕ

-- `fmt.Sprintf(config.FmtUrlForResolver, ShardResolverScheme, shardKey)`
unfoldable pub resolver_url : Bytes → Bytes
resolver_url key = codes "vec-idx" ++ (codes "://" ++ key)

dialled : Bytes → Conns → Result ℕ → Conns × Result ℕ
dialled key conns (err e) = (conns, err e)
dialled key conns (ok c) = (store key c conns, ok c)

connected : (ℕ → Bool) → (Bytes → Result ℕ) → Bytes → Conns → Option ℕ → Conns × Result ℕ
unfolding dialled
connected is_shutdown dial key conns none = dialled key conns (dial (resolver_url key))
connected is_shutdown dial key conns (some c) =
    if is_shutdown c then dialled key conns (dial (resolver_url key)) else (conns, ok c)

unfoldable pub get_shard_client : (ℕ → Bool) → (Bytes → Result ℕ) → Shard → Conns → Conns × Result ℕ
unfolding connected
get_shard_client is_shutdown dial s conns =
    connected is_shutdown dial (unique_shard_key s) conns (load (unique_shard_key s) conns)

dialled-load :
    (key : Bytes) (conns : Conns) (o : Result ℕ) (c : ℕ)
    → (dialled key conns o).1 ≡ ok c
    → load key (dialled key conns o).0 ≡ some c
unfolding dialled
dialled-load key conns (err e) c q = absurd (cc)
dialled-load key conns (ok d) c q = let same : d ≡ c = cc in rw same (load-store_self key c conns)

connected-load :
    (is_shutdown : ℕ → Bool) (dial : Bytes → Result ℕ) (key : Bytes) (conns : Conns) (o : Option ℕ)
    (c : ℕ)
    → load key conns ≡ o
    → (connected is_shutdown dial key conns o).1 ≡ ok c
    → load key (connected is_shutdown dial key conns o).0 ≡ some c
unfolding connected
connected-load is_shutdown dial key conns none c l q = dialled-load key conns _ c q
connected-load is_shutdown dial key conns (some d) c l q = elim (Bool-cases (is_shutdown d)) [
  | inl t ↦ rw t (dialled-load key conns _ c (rw t at q))
  | inr t ↦ let given : ok d ≡ ok c = rw t at q in let same : d ≡ c = cc in rw t cc
]

-- A client that was given for a shard is given again, without a change and whatever a dial would
-- give, for every shard with the same unique key, as long as its connection is not shut down.
pub get_shard_client-again :
    (is_shutdown later : ℕ → Bool) (dial redial : Bytes → Result ℕ) (s u : Shard) (conns : Conns)
    (c : ℕ)
    → (get_shard_client is_shutdown dial s conns).1 ≡ ok c
    → unique_shard_key u ≡ unique_shard_key s
    → later c ≡ false
    → get_shard_client later redial u (get_shard_client is_shutdown dial s conns).0
      ≡ ((get_shard_client is_shutdown dial s conns).0, ok c)
unfolding get_shard_client connected
get_shard_client-again is_shutdown later dial redial s u conns c q same up =
    let key = unique_shard_key s in
    let there = connected-load is_shutdown dial key conns (load key conns) c refl q in
    rw (same, there, up) refl

abbrev pub has_no : ℕ → Bytes → Bool
has_no a = all (λ c. not (c == a))

-- The resolver of a connection to a shard can not resolve, if gRPC takes the endpoint of a URL from
-- its path: the key of the shard stands where the URL has the host, and unless it has a slash the path
-- is empty.
pub resolve_now-resolver_url :
    (endpoint_of : Bytes → Bytes)
    (from_path : (scheme host : Bytes)
      → has_no b':' scheme ≡ true
      → has_no b'/' host ≡ true
      → endpoint_of (scheme ++ (codes "://" ++ host)) ≡ [])
    (fl : Floats) (route : Bytes → Option Routing × Option Err) (i : IndexManager) (s : Shard)
    → has_no b'/' (unique_shard_key s) ≡ true
    → resolve_now fl route i (endpoint_of (resolver_url (unique_shard_key s)))
      ≡ some (report_error resolve_index_shard)
unfolding resolve_now from_string valid split resolver_url
resolve_now-resolver_url endpoint_of from_path fl route i s h =
    rw (from_path (codes "vec-idx") (unique_shard_key s) refl h) refl
