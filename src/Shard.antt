-- ===== src/Shard.antt =====
-- internal/engine/index.go: manifests, shards, their keys and the lists of shards of an index.
-- A function that may panic returns an Option, `none` for the panic.
pub mod Keys
pub mod Generate
pub mod Distinct
use vectory.Base.{
  ℕ, zero, suc, ◌+◌, Bool, true, false, not, List, [], ◌∷◌, ◌++◌, map, Option, none, some, Bytes,
  codes, split, is_empty, bytes_same, ◌≡◌, refl, ℤ, pos, negsuc, pos_part, neg_part, to_int32,
  leb_ℤ, same_ℤ, same_ℤ_iff, bytes_same_iff, arith, ◌↔◌, ◌&&◌, ◌*ℤ◌, atoi, itoa, Key, if◌then◌else◌,
}

-- `type IndexType string`, with its named constants.
pub data IndexType : Type 0 where
  faiss scann redis mock : IndexType
  other : Bytes → IndexType

pub data ReloadMode : Type 0 where
  active passive : ReloadMode
  other : Bytes → ReloadMode

pub data ScheduleType : Type 0 where
  cron interval fixed_time : ScheduleType
  other : Bytes → ScheduleType

pub record IndexMeta : Type 0 where
  pub name : Bytes
  pub kind : IndexType
  pub input_dim : ℤ
  pub shards : ℤ
  pub replicas : ℤ
  pub c_time : ℤ
  pub m_time : ℤ
  pub version : Bytes

pub record ScheduleSetting : Type 0 where
  pub kind : ScheduleType
  pub crontab : Bytes
  pub interval : Bytes
  pub every : Bytes
  pub time : Bytes
  pub random_dwell_time : Bool

pub record ReloadSetting : Type 0 where
  pub enable : Bool
  pub mode : ReloadMode
  pub schedule : ScheduleSetting

pub data SourceType : Type 0 where
  local_path s3 : SourceType
  other : Bytes → SourceType

pub record IndexSource : Type 0 where
  pub kind : SourceType
  pub location : Bytes
  pub name_fmt : Bytes
  pub endpoint : Bytes
  pub access_key : Bytes
  pub secret_key : Bytes
  pub use_ssl : Bool

pub record IndexManifest : Type 0 where
  pub meta : IndexMeta
  pub source : Option IndexSource
  pub reload : Option ReloadSetting

pub record Shard : Type 0 where
  pub index_name : Bytes
  pub shard_id : ℤ
  pub replica_id : ℤ

abbrev pub same_shard : Shard → Shard → Bool
same_shard s t =
    bytes_same s.index_name t.index_name
    && (same_ℤ s.shard_id t.shard_id && same_ℤ s.replica_id t.replica_id)

pub same_shard_iff : (s t : Shard) → (same_shard s t ≡ true) ↔ (s ≡ t)
same_shard_iff s t = ground (
  arith,
  bytes_same_iff s.index_name t.index_name,
  same_ℤ_iff s.shard_id t.shard_id,
  same_ℤ_iff s.replica_id t.replica_id,
)

-- Shards are keys of maps themselves: Go compares structs field by field.
instance abbrev pub shard_as_key : Key Shard
shard_as_key = record { same = same_shard; same_iff = same_shard_iff }

-- `%s:%d:%d`
unfoldable pub shard_key : Shard → Bytes
shard_key s = s.index_name ++ (b':' ∷ (itoa s.shard_id ++ (b':' ∷ itoa s.replica_id)))

-- `%s:%d`
unfoldable pub unique_shard_key : Shard → Bytes
unique_shard_key s = s.index_name ++ (b':' ∷ itoa s.shard_id)

-- The three cases of `switch len(parts)`; a numeral that Atoi refuses leaves the receiver as it is.
read_two : Shard → Bytes → Option ℤ → Shard
read_two s name none = s
read_two s name (some i) = record s { index_name = name; shard_id = to_int32 i }

read_three : Shard → Bytes → Option ℤ → Option ℤ → Shard
read_three s name (some i) (some j) = record {
  index_name = name;
  shard_id = to_int32 i;
  replica_id = to_int32 j;
}
read_three s name _ _ = s

read_parts : Shard → List Bytes → Shard
unfolding read_two read_three
read_parts s (name ∷ []) = record s { index_name = name }
read_parts s (name ∷ i ∷ []) = read_two s name (atoi i)
read_parts s (name ∷ i ∷ j ∷ []) = read_three s name (atoi i) (atoi j)
read_parts s _ = s

-- `s.FromString(key)` on the receiver `s`.
unfoldable pub from_string : Shard → Bytes → Shard
unfolding read_parts
from_string s key = read_parts s (split key b':')

-- The zero value `&Shard{}`.
abbrev pub zero_shard : Shard
zero_shard = record { index_name = []; shard_id = pos 0; replica_id = pos 0 }

unfoldable pub valid : Shard → Bool
valid s = not (is_empty s.index_name)

-- `for i := 0; i < n; i++`: the counter's values, in order.
unfoldable pub count_up : ℕ → ℕ → List ℤ
count_up zero i = []
count_up (suc n) i = pos i ∷ count_up n (suc i)

abbrev pub below : ℤ → List ℤ
below n = count_up (pos_part n) 0

abbrev pub is_negative : ℤ → Bool
is_negative (pos n) = false
is_negative (negsuc n) = true

-- `make` panics at a negative length or capacity.
unfoldable pub generate_replica_keys : Shard → ℤ → Option (List Bytes)
generate_replica_keys s replicas =
    if not (valid s)
    then some []
    else if is_negative replicas
    then none
    else some (map (λ i. shard_key (record s { replica_id = i })) (below replicas))

abbrev pub shard_of : IndexMeta → ℤ → ℤ → Shard
shard_of meta i j = record { index_name = meta.name; shard_id = i; replica_id = j }

-- `meta.Shards*meta.Replicas` is a product in int32.
unfoldable pub capacity : IndexMeta → ℤ
capacity meta = to_int32 (meta.shards *ℤ meta.replicas)

unfoldable pub shard_grid : IndexMeta → List ℤ → List Shard
shard_grid meta [] = []
shard_grid meta (i ∷ is) = map (shard_of meta i) (below meta.replicas) ++ shard_grid meta is

unfoldable pub generate_shards : IndexManifest → Option (List Shard)
generate_shards m =
    if is_negative (capacity m.meta) then none else some (shard_grid m.meta (below m.meta.shards))

unfoldable pub generate_unique_shards : IndexManifest → Option (List Shard)
generate_unique_shards m =
    if is_negative (capacity m.meta)
    then none
    else some (map (λ i. shard_of m.meta i (pos 0)) (below m.meta.shards))

-- `Validate` has no checks yet: it accepts every manifest.
unfoldable pub validate : IndexManifest → Bool
validate m = true
