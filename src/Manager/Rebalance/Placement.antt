-- ===== src/Manager/Rebalance/Placement.antt =====
-- Where a whole rebalance leaves the shards of an index.
use vectory.Base.{
  ◌≡◌, ◌⊎◌, inl, inr, refl, sym, ap, ◌∙◌, subst, Bool, true, false, List, [], ◌∷◌, none, some,
  Bytes, bytes_key, Map, load, All, All-In, In, if◌then◌else◌, any, Bool-cases, ℤ, pos, ◌≤ℤ◌, ◌<ℤ◌,
  IsInt32, arith,
}
use vectory.Shard.Generate.{IsUniqueShardOf, In-generate_unique_shards}
use vectory.Shard.Keys.{unique_shard_key-injective}
use vectory.Status.{NodeStatus, current-set_status}
use vectory.Shard.{
  Shard, IndexManifest, unique_shard_key, shard_as_key, generate_unique_shards, below, shard_key,
}
use vectory.Index.{Index}
use vectory.Manager.{IndexManager, Tools, no_entry}
use vectory.Manager.Rebalance.{
  assigned_replica, rebalance_shard, rebalance_shards, rebalance_manifests, settle_status,
  rebalance,
}
use vectory.Manager.Rebalance.Steps.{
  bind_some, is_assigned, Placed, rebalance_shard-Placed, rebalance_shard-keeps,
}

-- This node needs one of the replicas of the shard.
abbrev pub needs_some : (Bytes → Bool) → Shard → ℤ → Bool
needs_some need s replicas =
    any (λ r. need (shard_key (record s { replica_id = r }))) (below replicas)

assigned-any :
    (need : Bytes → Bool) (s : Shard) (rs : List ℤ)
    → is_assigned (assigned_replica need s rs)
      ≡ any (λ r. need (shard_key (record s { replica_id = r }))) rs
unfolding assigned_replica
assigned-any need s [] = refl
assigned-any need s (r ∷ rs) = elim (Bool-cases (need (shard_key (record s { replica_id = r })))) [
  | inl e ↦ rw e refl
  | inr e ↦ rw e (assigned-any need s rs)
]

-- No two manifests have the same index name, as in a map whose keys are the names, and the numbers of
-- shards fit int32.
abbrev pub IsNamed : Map Bytes IndexManifest → Type 0
IsNamed ms =
    (d e : Bytes × IndexManifest) → In d ms → In e ms → d.1.meta.name ≡ e.1.meta.name → d ≡ e

abbrev pub AreInt32 : Map Bytes IndexManifest → Type 0
AreInt32 = All (λ (e : Bytes × IndexManifest). IsInt32 e.1.meta.shards)

-- `wanted` says whether this node needs one of the replicas of the shards with the unique key.
abbrev Decides : Bool → (Bytes → Bool) → Bytes → IndexManifest → Type 0
Decides wanted need k m =
    (s : Shard)
    → IsUniqueShardOf m.meta s
    → unique_shard_key s ≡ k
    → is_assigned (assigned_replica need s (below m.meta.replicas)) ≡ wanted

some_same : {A : Type 0} {a b : A} → some a ≡ some b → a ≡ b
some_same e = cc

module _ (t : Tools) (need : Bytes → Bool) (wanted : Bool) (k : Bytes) where
  shards_keep :
      (m : IndexManifest) (ss : List Shard) (i j : IndexManager)
      → Decides wanted need k m
      → ((s : Shard) → In s ss → IsUniqueShardOf m.meta s)
      → rebalance_shards t need m ss i ≡ some j
      → Placed wanted k i
      → Placed wanted k j
  unfolding rebalance_shards
  shards_keep m [] i j d u q v = let same : i ≡ j = cc in subst (Placed wanted k) same v
  shards_keep m (s ∷ ss) i j d u q v =
      let (l, first, rest) = bind_some (rebalance_shard t need m s i) _ j q in
      shards_keep m ss l j d (λ x w. u x (inr w)) rest
        (rebalance_shard-keeps wanted t need m s i l k (d s (u s (inl refl))) first v)

  shards_place :
      (m : IndexManifest) (ss : List Shard) (s : Shard) (i j : IndexManager)
      → Decides wanted need k m
      → ((x : Shard) → In x ss → IsUniqueShardOf m.meta x)
      → rebalance_shards t need m ss i ≡ some j
      → In s ss
      → unique_shard_key s ≡ k
      → Placed wanted k j
  unfolding rebalance_shards
  shards_place m [] s i j d u q w e = elim w [ ]
  shards_place m (x ∷ ss) s i j d u q (inl same) e =
      let (l, first, rest) = bind_some (rebalance_shard t need m x i) _ j q in
      let on : unique_shard_key x ≡ k = ap unique_shard_key same ∙ e in
      shards_keep m ss l j d (λ y w. u y (inr w)) rest
        (subst (λ y. Placed wanted y l) on
          (rebalance_shard-Placed wanted t need m x i l (d x (u x (inl refl)) on) first))
  shards_place m (x ∷ ss) s i j d u q (inr w) e =
      let (l, first, rest) = bind_some (rebalance_shard t need m x i) _ j q in
      shards_place m ss s l j d (λ y w. u y (inr w)) rest w e

  manifests_keep :
      (ms : Map Bytes IndexManifest) (i j : IndexManager)
      → All (λ (e : Bytes × IndexManifest). Decides wanted need k e.1) ms
      → rebalance_manifests t need ms i ≡ some j
      → Placed wanted k i
      → Placed wanted k j
  unfolding rebalance_manifests
  manifests_keep [] i j d q v = let same : i ≡ j = cc in subst (Placed wanted k) same v
  manifests_keep ((name, m) ∷ ms) i j d q v =
      let (ss, g, q') = bind_some (generate_unique_shards m) _ j q in
      let (l, first, rest) = bind_some (rebalance_shards t need m ss i) _ j q' in
      manifests_keep ms l j d.1 rest
        (shards_keep m ss i l d.0 (λ x w. (In-generate_unique_shards m ss x g).0 w) first v)

  manifests_place :
      (ms : Map Bytes IndexManifest) (e : Bytes × IndexManifest) (ss : List Shard) (s : Shard)
      (i j : IndexManager)
      → All (λ (e : Bytes × IndexManifest). Decides wanted need k e.1) ms
      → rebalance_manifests t need ms i ≡ some j
      → In e ms
      → generate_unique_shards e.1 ≡ some ss
      → In s ss
      → unique_shard_key s ≡ k
      → Placed wanted k j
  unfolding rebalance_manifests
  manifests_place [] e ss s i j d q w g u on = elim w [ ]
  manifests_place ((name, m) ∷ ms) e ss s i j d q (inl w) g u on =
      let (ss', g', q') = bind_some (generate_unique_shards m) _ j q in
      let (l, first, rest) = bind_some (rebalance_shards t need m ss' i) _ j q' in
      let same : ss ≡ ss' =
        some_same
          (sym g ∙ (ap (λ (p : Bytes × IndexManifest). generate_unique_shards p.1) (sym w) ∙ g')) in
      manifests_keep ms l j d.1 rest (
        shards_place m ss' s i l d.0 (λ x v. (In-generate_unique_shards m ss' x g').0 v) first
          (subst (In s) same u) on)
  manifests_place ((name, m) ∷ ms) e ss s i j d q (inr w) g u on =
      let (ss', g', q') = bind_some (generate_unique_shards m) _ j q in
      let (l, first, rest) = bind_some (rebalance_shards t need m ss' i) _ j q' in
      manifests_place ms e ss s l j d.1 rest w g u on

All-of : {A : Type 0} (P : A → Type 0) (xs : List A) → ((a : A) → In a xs → P a) → All P xs
All-of P [] h = tt
All-of P (x ∷ xs) h = (h x (inl refl), All-of P xs (λ a w. h a (inr w)))

-- A shard id in range is an int32.
id_IsInt32 : (n i : ℤ) → IsInt32 n → pos 0 ≤ℤ i → i <ℤ n → IsInt32 i
id_IsInt32 n i h a b = ground arith

-- With distinct names a unique key is of one shard of one manifest.
one_shard :
    (ms : Map Bytes IndexManifest) (d e : Bytes × IndexManifest) (s x : Shard)
    → IsNamed ms
    → AreInt32 ms
    → In d ms
    → In e ms
    → IsUniqueShardOf d.1.meta x
    → IsUniqueShardOf e.1.meta s
    → unique_shard_key x ≡ unique_shard_key s
    → (d ≡ e) × (x ≡ s)
one_shard ms d e s x named ints v w (n, a, b, z) (n', a', b', z') q =
    let (names, ids) =
      unique_shard_key-injective x s
        (id_IsInt32 d.1.meta.shards x.shard_id
          (All-In (λ (e : Bytes × IndexManifest). IsInt32 e.1.meta.shards) d ms ints v) a b)
        (id_IsInt32 e.1.meta.shards s.shard_id
          (All-In (λ (e : Bytes × IndexManifest). IsInt32 e.1.meta.shards) e ms ints w) a' b')
        q in
    (
      named d e v w (sym n ∙ names ∙ n'),
      λ i. record { index_name = names i; shard_id = ids i; replica_id = (z ∙ sym z') i },
    )

-- After a rebalance every shard of every manifest is where the hash ring wants it: if this node
-- needs one of its replicas, it is loaded, or a shard with its unique key is marked pending; if this
-- node needs none, it is not loaded. The manifests have distinct index names, and int32 numbers of
-- shards.
pub rebalance-Placed :
    (t : Tools) (need : Bytes → Bool) (i j : IndexManager) (e : Bytes × IndexManifest)
    (ss : List Shard) (s : Shard)
    → IsNamed i.index_manifests
    → AreInt32 i.index_manifests
    → rebalance t need i ≡ some j
    → In e i.index_manifests
    → generate_unique_shards e.1 ≡ some ss
    → In s ss
    → Placed (needs_some need s e.1.meta.replicas) (unique_shard_key s) j
unfolding rebalance settle_status
rebalance-Placed t need i j e ss s named ints q w g u =
    let wanted = needs_some need s e.1.meta.replicas in
    let (k, all, last) = bind_some (rebalance_manifests t need i.index_manifests _) _ j q in
    let same : settle_status k ≡ j = cc in
    let decides : All (λ (d : Bytes × IndexManifest). Decides wanted need (unique_shard_key s) d.1)
        i.index_manifests =
      All-of (λ (d : Bytes × IndexManifest). Decides wanted need (unique_shard_key s) d.1)
        i.index_manifests
        (λ d v x of_d on.
          let (d-e, x-s) =
            one_shard i.index_manifests d e s x named ints v w of_d
              ((In-generate_unique_shards e.1 ss s g).0 u) on in
          assigned-any need x (below d.1.meta.replicas)
          ∙ ap (λ (p : (Bytes × IndexManifest) × Shard). needs_some need p.1 p.0.1.meta.replicas)
              (λ n. (d-e n, x-s n))) in
    subst (Placed wanted (unique_shard_key s)) same (
      manifests_place t need wanted (unique_shard_key s) i.index_manifests e ss s _ k decides all w
        g u refl)

-- The status after a rebalance is healthy if no shard is pending, and unhealthy otherwise.
pub status-rebalance :
    (t : Tools) (need : Bytes → Bool) (i j : IndexManager)
    → rebalance t need i ≡ some j
    → j.status.current
      ≡ (if no_entry j.pending_shards then NodeStatus.healthy else NodeStatus.unhealthy)
unfolding rebalance settle_status
status-rebalance t need i j q =
    let (k, all, last) = bind_some (rebalance_manifests t need i.index_manifests _) _ j q in
    let same : settle_status k ≡ j = cc in
    subst
      (λ (x : IndexManager).
        x.status.current
        ≡ (if no_entry x.pending_shards then NodeStatus.healthy else NodeStatus.unhealthy))
      same (current-set_status _ k.status)

nothing_pending :
    (ps : Map Shard Bool) (p : Shard)
    → NodeStatus.healthy ≡ (if no_entry ps then NodeStatus.healthy else NodeStatus.unhealthy)
    → load p ps ≡ none
unfolding load
nothing_pending [] p h = refl
nothing_pending (e ∷ ps) p h = absurd (cc)

-- So a node that is healthy after a rebalance has loaded exactly those shards of its manifests of
-- which the hash ring gives it a replica. The manifests have distinct index names, and int32 numbers of
-- shards.
pub rebalance-healthy :
    (t : Tools) (need : Bytes → Bool) (i j : IndexManager) (e : Bytes × IndexManifest)
    (ss : List Shard) (s : Shard)
    → IsNamed i.index_manifests
    → AreInt32 i.index_manifests
    → rebalance t need i ≡ some j
    → j.status.current ≡ NodeStatus.healthy
    → In e i.index_manifests
    → generate_unique_shards e.1 ≡ some ss
    → In s ss
    → ((needs_some need s e.1.meta.replicas ≡ true)
        × ((x : Index) × (load (unique_shard_key s) j.engine_store ≡ some x)))
      ⊎ ((needs_some need s e.1.meta.replicas ≡ false)
          × (load (unique_shard_key s) j.engine_store ≡ none))
rebalance-healthy t need i j e ss s named ints q h w g u =
    elim (rebalance-Placed t need i j e ss s named ints q w g u) [
      | inl (a, inl x) ↦ inl (a, x)
      | inl (a, inr (p, _, l)) ↦
          let z = nothing_pending j.pending_shards p (sym h ∙ status-rebalance t need i j q) in
          absurd (cc)
      | inr x ↦ inr x
    ]
