-- ===== src/Shard/Generate.antt =====
-- The lists of shards: which shards they hold, in what number, and how they fit together.
use vectory.Base.{
  ℕ, zero, suc, ◌+◌, ◌*◌, ◌≤◌, ◌<◌, ◌≡◌, ◌↔◌, ◌⊎◌, inl, inr, refl, sym, ap, subst, ◌∙◌, true, false,
  List, [], ◌∷◌, ◌++◌, map, Option, none, some, Bytes, In, In-append, In-append_left,
  In-append_right, length, length-append, length-map, ℤ, pos, negsuc, pos_part, ◌<ℤ◌, ◌≤ℤ◌, ◌*ℤ◌,
  to_int32, to_int32_id, is_empty, arith, ◌>>=◌, ◌^◌,
}
use mathlib.Core.Path.{ap₂}
use mathlib.Core.List.{map-append, map-map}
use vectory.Shard.{
  is_negative, Shard, IndexMeta, IndexManifest, count_up, below, shard_of, shard_grid, capacity,
  generate_shards, generate_unique_shards, generate_replica_keys, shard_key, valid,
}

-- The panic that a negative capacity makes is the only way to fail.
pub generate_shards-some :
    (m : IndexManifest) (l : List Shard)
    → generate_shards m ≡ some l
    → l ≡ shard_grid m.meta (below m.meta.shards)
unfolding generate_shards
generate_shards-some m l h = ground arith

length-count_up : (n i : ℕ) → length (count_up n i) ≡ n
unfolding count_up
length-count_up zero i = refl
length-count_up (suc n) i = ap suc (length-count_up n (suc i))

pub In-count_up :
    (n i : ℕ) (z : ℤ) → In z (count_up n i) → (k : ℕ) × (z ≡ pos k) × (i ≤ k) × (k < i + n)
unfolding count_up
In-count_up zero i z h = elim h [ ]
In-count_up (suc n) i z (inl e) = (i, sym e, omega arith, omega arith)
In-count_up (suc n) i z (inr h) =
    let (k, e, a, b) = In-count_up n (suc i) z h in (k, e, omega arith, omega arith)

count_up-In : (n i k : ℕ) → i ≤ k → k < i + n → In (pos k) (count_up n i)
unfolding count_up
count_up-In zero i k a b = absurd (omega arith)
count_up-In (suc n) i k a b = elim (split_first i k a) [
  | inl e ↦ inl (ap pos e)
  | inr h ↦ inr (count_up-In n (suc i) k h (omega arith))
]
  where
    split_first : (i k : ℕ) → i ≤ k → (i ≡ k) ⊎ (suc i ≤ k)
    split_first i k h = grind arith

module _ (meta : IndexMeta) where
  length-shard_grid :
      (is : List ℤ) → length (shard_grid meta is) ≡ length is * pos_part meta.replicas
  unfolding shard_grid
  length-shard_grid [] = omega arith
  length-shard_grid (i ∷ is) = omega (
    arith,
    length-append (map (shard_of meta i) (below meta.replicas)) (shard_grid meta is),
    length-map (shard_of meta i) (below meta.replicas),
    length-count_up (pos_part meta.replicas) 0,
    length-shard_grid is,
  )

-- The list has one entry for each pair of a shard and a replica.
pub length-generate_shards :
    (m : IndexManifest) (l : List Shard)
    → generate_shards m ≡ some l
    → length l ≡ pos_part m.meta.shards * pos_part m.meta.replicas
length-generate_shards m l h = rw (generate_shards-some m l h) (
    length-shard_grid m.meta (below m.meta.shards)
    ∙ ap (λ (n : ℕ). n * pos_part m.meta.replicas) (length-count_up (pos_part m.meta.shards) 0))

pub In-map :
    {A B : Type 0} (f : A → B) (b : B) (xs : List A)
    → In b (map f xs)
    → (a : A) × In a xs × (f a ≡ b)
In-map f b [] h = elim h [ ]
In-map f b (x ∷ xs) (inl e) = (x, inl refl, e)
In-map f b (x ∷ xs) (inr h) = let (a, m, e) = In-map f b xs h in (a, inr m, e)

map-In : {A B : Type 0} (f : A → B) (a : A) (xs : List A) → In a xs → In (f a) (map f xs)
map-In f a [] h = elim h [ ]
map-In f a (x ∷ xs) (inl e) = inl (ap f e)
map-In f a (x ∷ xs) (inr h) = inr (map-In f a xs h)

pub In-shard_grid :
    (meta : IndexMeta) (s : Shard) (is : List ℤ)
    → In s (shard_grid meta is)
    → (i : ℤ) × (j : ℤ) × In i is × In j (below meta.replicas) × (s ≡ shard_of meta i j)
unfolding shard_grid
In-shard_grid meta s [] h = elim h [ ]
In-shard_grid meta s (i ∷ is) h =
    elim (In-append s (map (shard_of meta i) (below meta.replicas)) _ h) [
      | inl l ↦ let (j, m, e) = In-map (shard_of meta i) s _ l in (i, j, inl refl, m, sym e)
      | inr r ↦ let (k, j, m, n, e) = In-shard_grid meta s is r in (k, j, inr m, n, e)
    ]

shard_grid-In :
    (meta : IndexMeta) (i j : ℤ) (is : List ℤ)
    → In i is
    → In j (below meta.replicas)
    → In (shard_of meta i j) (shard_grid meta is)
unfolding shard_grid
shard_grid-In meta i j [] h k = elim h [ ]
shard_grid-In meta i j (x ∷ is) (inl e) k = In-append_left _ _ _ (
    subst (λ y. In (shard_of meta i j) (map (shard_of meta y) (below meta.replicas))) (sym e)
      (map-In (shard_of meta i) j _ k))
shard_grid-In meta i j (x ∷ is) (inr h) k = In-append_right _ _ _ (shard_grid-In meta i j is h k)

-- A shard that the manifest describes: of the index, with both ids in range.
abbrev pub IsShardOf : IndexMeta → Shard → Type 0
IsShardOf meta s =
    (s.index_name ≡ meta.name)
    × (pos 0 ≤ℤ s.shard_id)
    × (s.shard_id <ℤ meta.shards)
    × (pos 0 ≤ℤ s.replica_id)
    × (s.replica_id <ℤ meta.replicas)

in_range : (n z : ℤ) → In z (below n) → (pos 0 ≤ℤ z) × (z <ℤ n)
in_range n z h = let (k, e, a, b) = In-count_up (pos_part n) 0 z h in rw e (ground arith)

range-In : (n z : ℤ) → pos 0 ≤ℤ z → z <ℤ n → In z (below n)
range-In n (pos k) a b = count_up-In (pos_part n) 0 k (omega arith) (ground arith)
range-In n (negsuc k) a b = absurd (omega arith)

-- The list holds exactly the shards that the manifest describes.
pub In-generate_shards :
    (m : IndexManifest) (l : List Shard) (s : Shard)
    → generate_shards m ≡ some l
    → In s l ↔ IsShardOf m.meta s
In-generate_shards m l s h = (there, back)
  where
    there : In s l → IsShardOf m.meta s
    there k =
        let (i, j, a, b, e) =
          In-shard_grid m.meta s _ (subst (In s) (generate_shards-some m l h) k) in
        let (a0, a1) = in_range _ i a in
        let (b0, b1) = in_range _ j b in rw e (refl, a0, a1, b0, b1)

    back : IsShardOf m.meta s → In s l
    back (n, a0, a1, b0, b1) = rw (generate_shards-some m l h) (
        subst (λ t. In t (shard_grid m.meta (below m.meta.shards)))
          (λ i. record s { index_name = sym n i })
          (shard_grid-In m.meta s.shard_id s.replica_id _ (range-In _ _ a0 a1)
            (range-In _ _ b0 b1)))

capacity-eq :
    (meta : IndexMeta) (s r : ℕ)
    → meta.shards ≡ pos s
    → meta.replicas ≡ pos r
    → capacity meta ≡ to_int32 (pos (s * r))
unfolding capacity ◌*ℤ◌
capacity-eq meta s r hs hr = ap to_int32 (ap₂ ◌*ℤ◌ hs hr)

to_int32_negative : (n : ℕ) → 2 ^ 31 ≤ n → n < 2 ^ 32 → is_negative (to_int32 (pos n)) ≡ true
to_int32_negative n a b = ground arith

both_made :
    (m : IndexManifest) (s r : ℕ)
    → m.meta.shards ≡ pos s
    → m.meta.replicas ≡ pos r
    → s * r < 2 ^ 31
    → (generate_shards m ≡ some (shard_grid m.meta (below m.meta.shards)))
      × (generate_unique_shards m
          ≡ some (map (λ i. shard_of m.meta i (pos 0)) (below m.meta.shards)))
unfolding generate_shards generate_unique_shards capacity
both_made m s r hs hr small =
    ground (arith, capacity-eq m.meta s r hs hr, to_int32_id (pos (s * r)) small)

-- A shard of the manifest as it is searched and rebalanced: of the index, with its id in range, and
-- replica 0.
abbrev pub IsUniqueShardOf : IndexMeta → Shard → Type 0
IsUniqueShardOf meta s =
    (s.index_name ≡ meta.name)
    × (pos 0 ≤ℤ s.shard_id)
    × (s.shard_id <ℤ meta.shards)
    × (s.replica_id ≡ pos 0)

unique_some :
    (m : IndexManifest) (l : List Shard)
    → generate_unique_shards m ≡ some l
    → l ≡ map (λ i. shard_of m.meta i (pos 0)) (below m.meta.shards)
unfolding generate_unique_shards
unique_some m l h = ground arith

pub In-generate_unique_shards :
    (m : IndexManifest) (l : List Shard) (s : Shard)
    → generate_unique_shards m ≡ some l
    → In s l ↔ IsUniqueShardOf m.meta s
In-generate_unique_shards m l s h = (there, back)
  where
    there : In s l → IsUniqueShardOf m.meta s
    there k =
        let (i, a, e) =
          In-map (λ i. shard_of m.meta i (pos 0)) s _ (subst (In s) (unique_some m l h) k) in
        let (a0, a1) = in_range _ i a in rw (sym e) (refl, a0, a1, refl)

    back : IsUniqueShardOf m.meta s → In s l
    back (n, a0, a1, z) = rw (unique_some m l h) (
        subst (λ t. In t (map (λ i. shard_of m.meta i (pos 0)) (below m.meta.shards)))
          (λ i. record s { index_name = sym n i; replica_id = sym z i })
          (map-In (λ i. shard_of m.meta i (pos 0)) s.shard_id _ (range-In _ _ a0 a1)))

-- With counts of shards and replicas whose product fits int32 neither call panics: one list holds
-- exactly every replica of every shard, and the other exactly replica 0 of every shard.
pub generate_shards-total :
    (m : IndexManifest) (s r : ℕ)
    → m.meta.shards ≡ pos s
    → m.meta.replicas ≡ pos r
    → s * r < 2 ^ 31
    → ((l : List Shard) × (generate_shards m ≡ some l)
        × ((x : Shard) → In x l ↔ IsShardOf m.meta x))
      × ((u : List Shard) × (generate_unique_shards m ≡ some u)
          × ((x : Shard) → In x u ↔ IsUniqueShardOf m.meta x))
generate_shards-total m s r hs hr small =
    let (whole, unique) = both_made m s r hs hr small in
    (
      (_, whole, λ x. In-generate_shards m _ x whole),
      (_, unique, λ x. In-generate_unique_shards m _ x unique),
    )

-- With a product of at least 2^31 and less than 2^32 both calls panic, because the capacity that
-- they compute in int32 is negative.
pub generate_shards_overflow :
    (m : IndexManifest) (s r : ℕ)
    → m.meta.shards ≡ pos s
    → m.meta.replicas ≡ pos r
    → 2 ^ 31 ≤ s * r
    → s * r < 2 ^ 32
    → (generate_shards m ≡ none) × (generate_unique_shards m ≡ none)
unfolding generate_shards generate_unique_shards capacity
generate_shards_overflow m s r hs hr big fits =
    ground (arith, capacity-eq m.meta s r hs hr, to_int32_negative (s * r) big fits)

-- The keys of all shards are the replica keys of the unique shards, in the same order.
pub replica_keys : List Shard → ℤ → Option (List Bytes)
replica_keys [] r = some []
replica_keys (s ∷ ss) r = do
  ks ← generate_replica_keys s r
  rest ← replica_keys ss r
  some (ks ++ rest)

keys_of_one :
    (meta : IndexMeta) (i : ℤ)
    → is_empty meta.name ≡ false
    → pos 0 ≤ℤ meta.replicas
    → generate_replica_keys (shard_of meta i (pos 0)) meta.replicas
      ≡ some (map shard_key (map (shard_of meta i) (below meta.replicas)))
unfolding generate_replica_keys valid
keys_of_one meta i h k = ground (arith, map-map shard_key (shard_of meta i) (below meta.replicas))

replica_keys-some :
    (meta : IndexMeta) (is : List ℤ)
    → is_empty meta.name ≡ false
    → pos 0 ≤ℤ meta.replicas
    → replica_keys (map (λ i. shard_of meta i (pos 0)) is) meta.replicas
      ≡ some (map shard_key (shard_grid meta is))
unfolding replica_keys shard_grid
replica_keys-some meta [] h k = refl
replica_keys-some meta (i ∷ is) h k =
    rw (keys_of_one meta i h k, replica_keys-some meta is h k, map-append)

-- For an index with a name the keys of all shards are the replica keys of its unique shards, in
-- the same order.
pub generate_replica_keys-generate_shards :
    (m : IndexManifest) (l u : List Shard)
    → generate_shards m ≡ some l
    → generate_unique_shards m ≡ some u
    → is_empty m.meta.name ≡ false
    → pos 0 ≤ℤ m.meta.replicas
    → replica_keys u m.meta.replicas ≡ some (map shard_key l)
unfolding generate_shards generate_unique_shards
generate_replica_keys-generate_shards m l u h k n r =
    ground (arith, replica_keys-some m.meta (below m.meta.shards) n r)
