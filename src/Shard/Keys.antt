-- ===== src/Shard/Keys.antt =====
-- Shard keys: reading a key back, and keys that tell shards apart.
use vectory.Base.{
  ℕ, ◌≡◌, refl, sym, ap, subst, ◌∙◌, List, [], ◌∷◌, ◌++◌, Bytes, Lacks, split, split-Lacks,
  split-append, ℤ, pos, negsuc, IsInt32, IsInt64, to_int32_id, itoa, atoi, atoi-itoa,
  itoa-Lacks-colon, arith,
}
use vectory.Shard.{Shard, shard_key, unique_shard_key, from_string}

pub IsInt32-IsInt64 : (z : ℤ) → IsInt32 z → IsInt64 z
IsInt32-IsInt64 (pos n) h = omega arith
IsInt32-IsInt64 (negsuc n) h = omega arith

split-unique_shard_key :
    (s : Shard)
    → Lacks b':' s.index_name
    → split (unique_shard_key s) b':' ≡ s.index_name ∷ itoa s.shard_id ∷ []
unfolding unique_shard_key
split-unique_shard_key s h =
    split-append s.index_name (itoa s.shard_id) b':' h
    ∙ ap (λ (t : List Bytes). s.index_name ∷ t) (split-Lacks _ b':' (itoa-Lacks-colon s.shard_id))

split-shard_key :
    (s : Shard)
    → Lacks b':' s.index_name
    → split (shard_key s) b':' ≡ s.index_name ∷ itoa s.shard_id ∷ itoa s.replica_id ∷ []
unfolding shard_key
split-shard_key s h = rw (
  split-append s.index_name _ b':' h,
  split-append (itoa s.shard_id) _ b':' (itoa-Lacks-colon s.shard_id),
  split-Lacks (itoa s.replica_id) b':' (itoa-Lacks-colon s.replica_id),
)

-- Reading a shard's key gives the shard back, whatever the receiver held, for an index name
-- without a colon and ids that are int32 values.
pub from_string-shard_key :
    (r s : Shard)
    → Lacks b':' s.index_name
    → IsInt32 s.shard_id
    → IsInt32 s.replica_id
    → from_string r (shard_key s) ≡ s
unfolding from_string
from_string-shard_key r s h i j = rw (
  split-shard_key s h,
  atoi-itoa _ (IsInt32-IsInt64 _ i),
  atoi-itoa _ (IsInt32-IsInt64 _ j),
  to_int32_id _ i,
  to_int32_id _ j,
)

-- Reading a unique key sets the index and the shard, and leaves the receiver's replica alone.
pub from_string-unique_shard_key :
    (r s : Shard)
    → Lacks b':' s.index_name
    → IsInt32 s.shard_id
    → from_string r (unique_shard_key s)
      ≡ record { index_name = s.index_name; shard_id = s.shard_id; replica_id = r.replica_id }
unfolding from_string
from_string-unique_shard_key r s h i =
    rw (split-unique_shard_key s h, atoi-itoa _ (IsInt32-IsInt64 _ i), to_int32_id _ i)

not-Lacks-append : (sep : ℕ) (q t : Bytes) → ¬ Lacks sep (q ++ (sep ∷ t))
not-Lacks-append sep [] t h = h.0 refl
not-Lacks-append sep (b ∷ q) t h = not-Lacks-append sep q t h.1

-- A string is cut at its last separator in one way only.
tails : {a b : ℕ} {s t : Bytes} → a ∷ s ≡ b ∷ t → s ≡ t
tails e = cc

last_cut :
    (sep : ℕ) (p q s t : Bytes)
    → Lacks sep s
    → Lacks sep t
    → p ++ (sep ∷ s) ≡ q ++ (sep ∷ t)
    → (p ≡ q) × (s ≡ t)
last_cut sep [] [] s t hs ht e = (refl, cc)
last_cut sep [] (b ∷ q) s t hs ht e =
    absurd (not-Lacks-append sep q t (subst (Lacks sep) (tails e) hs))
last_cut sep (a ∷ p) [] s t hs ht e =
    absurd (not-Lacks-append sep p s (subst (Lacks sep) (tails (sym e)) ht))
last_cut sep (a ∷ p) (b ∷ q) s t hs ht e = let (h, k) = last_cut sep p q s t hs ht (cc) in (cc, k)

itoa-injective : (i j : ℤ) → IsInt32 i → IsInt32 j → itoa i ≡ itoa j → i ≡ j
itoa-injective i j hi hj e =
    let p =
      sym (atoi-itoa i (IsInt32-IsInt64 i hi)) ∙ ap atoi e ∙ atoi-itoa j (IsInt32-IsInt64 j hj) in
    cc

-- Two shards with the same unique key are the same shard of the same index, whatever their names:
-- a colon in a name does no harm here.
pub unique_shard_key-injective :
    (s t : Shard)
    → IsInt32 s.shard_id
    → IsInt32 t.shard_id
    → unique_shard_key s ≡ unique_shard_key t
    → (s.index_name ≡ t.index_name) × (s.shard_id ≡ t.shard_id)
unfolding unique_shard_key
unique_shard_key-injective s t hs ht e =
    let (n, i) =
      last_cut b':' _ _ _ _ (itoa-Lacks-colon s.shard_id) (itoa-Lacks-colon t.shard_id) e in
    (n, itoa-injective _ _ hs ht i)
