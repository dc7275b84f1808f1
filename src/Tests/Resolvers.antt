-- ===== src/Tests/Resolvers.antt =====
-- Two resolvers of one shard of Data, and a client for it.
use vectory.Base.{
  ◌≡◌, refl, true, false, Bool, List, [], ◌∷◌, Option, some, Bytes, bytes_key, codes, ℕ, In, inl,
  inr, ◌==◌, if◌then◌else◌, load, itoa, Bool-cases, pos, ◌++◌,
}
use vectory.Errors.{ok, Result, resolve_index_shard}
use vectory.Shard.{Shard, unique_shard_key}
use vectory.Resolver.{report_error, resolve_now, Report}
use vectory.Resolver.Life.{
  Resolver, Surroundings, Event, built, closed, rebalanced, due, happen, run, after, nobody,
}
use vectory.Resolver.Life.Told.{rebalanced-tells, closed-silences}
use vectory.Resolver.Client.{
  get_shard_client, get_shard_client-again, resolver_url, has_no, resolve_now-resolver_url,
}
use vectory.Tests.Managers.{balanced}
use vectory.Tests.Nodes.{floats}
use vectory.Tests.Routes.{all_to_a}

abbrev older : Resolver
older = record { target = codes "b:1"; cc = 1; entry = 1 }

abbrev newer : Resolver
newer = record { target = codes "b:1"; cc = 2; entry = 2 }

abbrev around : Surroundings
around = record { floats = floats; route = all_to_a; manager = balanced }

abbrev both_built : List (Surroundings × Event)
both_built = (around, built older) ∷ (around, built newer) ∷ []

abbrev goes_on : List (Surroundings × Event)
goes_on = (around, rebalanced) ∷ (around, due 1) ∷ (around, due 2) ∷ []

abbrev told : Option Report
told = resolve_now floats all_to_a balanced (codes "b:1")

rebalanced-tells_example :
    In
      (newer, told)
      (happen around rebalanced (run goes_on (happen around (built newer) nobody).0).0).1
rebalanced-tells_example = rebalanced-tells goes_on nobody around around newer (tt, (tt, (tt, tt)))

closed-silences_example :
    ¬ In
      (newer, told)
      (happen around rebalanced (happen around (closed older) (after both_built)).0).1
closed-silences_example = closed-silences both_built around around older newer told refl

abbrev shard_one : Shard
shard_one = record { index_name = codes "b"; shard_id = pos 1; replica_id = pos 0 }

abbrev never_shut : ℕ → Bool
never_shut c = false

abbrev dial_seven : Bytes → Result ℕ
dial_seven url = ok 7

abbrev dial_eight : Bytes → Result ℕ
dial_eight url = ok 8

first_call : (get_shard_client never_shut dial_seven shard_one []).1 ≡ ok 7
unfolding get_shard_client load
first_call = refl

get_shard_client-again_example :
    get_shard_client never_shut dial_eight shard_one
      (get_shard_client never_shut dial_seven shard_one []).0
    ≡ ((get_shard_client never_shut dial_seven shard_one []).0, ok 7)
get_shard_client-again_example =
    get_shard_client-again never_shut never_shut dial_seven dial_eight shard_one shard_one [] 7
      first_call refl refl

abbrev drop_two : Bytes → Bytes
drop_two (a ∷ b ∷ rest) = rest
drop_two _ = []

-- What follows the first slash.
abbrev after_slash : Bytes → Bytes
after_slash [] = []
after_slash (c ∷ cs) = if c == b'/' then cs else after_slash cs

-- What follows the first slash after the colon and two characters more.
abbrev path_of : Bytes → Bytes
path_of [] = []
path_of (c ∷ cs) = if c == b':' then after_slash (drop_two cs) else path_of cs

path_of-nothing :
    (scheme host : Bytes)
    → has_no b':' scheme ≡ true
    → has_no b'/' host ≡ true
    → path_of (scheme ++ (codes "://" ++ host)) ≡ []
path_of-nothing [] host p q = none_left host q
  where
    none_left : (host : Bytes) → has_no b'/' host ≡ true → after_slash host ≡ []
    none_left [] q = refl
    none_left (c ∷ cs) q = elim (Bool-cases (c == b'/')) [
      | inl t ↦ let z : false ≡ true = rw t at q in absurd (cc)
      | inr t ↦ rw t (none_left cs (rw t at q))
    ]
path_of-nothing (c ∷ cs) host p q = elim (Bool-cases (c == b':')) [
  | inl t ↦ let z : false ≡ true = rw t at p in absurd (cc)
  | inr t ↦ rw t (path_of-nothing cs host (rw t at p) q)
]

named : has_no b'/' (unique_shard_key shard_one) ≡ true
unfolding unique_shard_key itoa
named = refl

resolve_now-resolver_url_example :
    resolve_now floats all_to_a balanced (path_of (resolver_url (unique_shard_key shard_one)))
    ≡ some (report_error resolve_index_shard)
resolve_now-resolver_url_example =
    resolve_now-resolver_url path_of path_of-nothing floats all_to_a balanced shard_one named
