-- ===== src/Shard/Distinct.antt =====
-- No shard is listed twice among the shards of a manifest.
use vectory.Base.{
  ℕ, zero, suc, ◌+◌, ◌≤◌, ◌<◌, ◌≡◌, inl, inr, refl, sym, ap, subst, ◌∙◌, List, [], ◌∷◌, ◌++◌, map,
  some, In, In-append, ℤ, pos, arith,
}
use vectory.Shard.{
  Shard, IndexMeta, IndexManifest, count_up, below, shard_of, shard_grid, generate_shards,
}
use vectory.Shard.Generate.{In-count_up, generate_shards-some, In-map, In-shard_grid}

-- No entry of the list stands at two places.
abbrev pub Distinct : {A : Type 0} → List A → Type 0
Distinct [] = Unit
Distinct (x ∷ xs) = (¬ In x xs) × Distinct xs

Distinct-count_up : (n i : ℕ) → Distinct (count_up n i)
unfolding count_up
Distinct-count_up zero i = tt
Distinct-count_up (suc n) i =
    (λ h. later_not_first i n (In-count_up n (suc i) (pos i) h), Distinct-count_up n (suc i))
  where
    later_not_first : (i n : ℕ) → (k : ℕ) × (pos i ≡ pos k) × (suc i ≤ k) × (k < suc i + n) → ⊥
    later_not_first i n (k, e, a, b) = ground arith

Distinct-map :
    {A B : Type 0} (f : A → B) (xs : List A)
    → ((a b : A) → f a ≡ f b → a ≡ b)
    → Distinct xs
    → Distinct (map f xs)
Distinct-map f [] inj h = tt
Distinct-map f (x ∷ xs) inj (p, h) = (
  λ m. let (a, k, e) = In-map f (f x) xs m in p (subst (λ y. In y xs) (inj a x e) k),
  Distinct-map f xs inj h,
)

Distinct-append :
    {A : Type 0} (xs ys : List A)
    → Distinct xs
    → Distinct ys
    → ((a : A) → In a xs → ¬ In a ys)
    → Distinct (xs ++ ys)
Distinct-append [] ys p q d = q
Distinct-append (x ∷ xs) ys (n, p) q d = (fresh, Distinct-append xs ys p q (λ a m. d a (inr m)))
  where
    fresh : ¬ In x (xs ++ ys)
    fresh m = elim (In-append x xs ys m) [ inl l ↦ n l | inr r ↦ d x (inl refl) r ]

shard_of-injective : (meta : IndexMeta) (i j k : ℤ) → shard_of meta i j ≡ shard_of meta i k → j ≡ k
shard_of-injective meta i j k e = ap (λ (s : Shard). s.replica_id) e

Distinct-shard_grid : (meta : IndexMeta) (is : List ℤ) → Distinct is → Distinct (shard_grid meta is)
unfolding shard_grid
Distinct-shard_grid meta [] h = tt
Distinct-shard_grid meta (i ∷ is) (p, h) =
    Distinct-append _ _
      (Distinct-map (shard_of meta i) _ (shard_of-injective meta i) (Distinct-count_up _ 0))
      (Distinct-shard_grid meta is h) apart
  where
    apart :
        (s : Shard)
        → In s (map (shard_of meta i) (below meta.replicas))
        → ¬ In s (shard_grid meta is)
    apart s m n =
        let (j, a, e) = In-map (shard_of meta i) s _ m in
        let (k, l, b, c, q) = In-shard_grid meta s is n in
        p (subst (λ y. In y is) (sym (ap (λ (t : Shard). t.shard_id) (e ∙ q))) b)

-- No shard is listed twice.
pub Distinct-generate_shards :
    (m : IndexManifest) (l : List Shard) → generate_shards m ≡ some l → Distinct l
Distinct-generate_shards m l h =
    rw (generate_shards-some m l h) (Distinct-shard_grid m.meta _ (Distinct-count_up _ 0))
