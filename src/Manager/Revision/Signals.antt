-- ===== src/Manager/Revision/Signals.antt =====
-- How the ready keys of etcd are read, by the nodes that wrote them.
use vectory.Base.{
  ◌≡◌, inl, inr, refl, sym, ap, ◌∙◌, true, List, [], ◌∷◌, ◌++◌, Option, none, some, Bytes,
  bytes_key, bytes_same, bytes_same_iff, Map, load, load-store, ℤ, In, Bool-cases, Lacks, split,
  split-Lacks, has_prefix, has_prefix-append, ◌==◌, ==_iff, ℕ,
}
use vectory.Config.Paths.{revision_ready_path_prefix, revision_ready_path}
use vectory.Manager.Revision.{last_part, note_ready, ready_nodes}

-- What follows the last separator, of a key that has one.
cut_last :
    (p n : Bytes) (sep : ℕ)
    → Lacks sep n
    → (a : Bytes) × (b : Bytes) × (rs : List Bytes) × (split (p ++ (sep ∷ n)) sep ≡ a ∷ b ∷ rs)
      × (last_part (a ∷ b ∷ rs) ≡ n)
unfolding split last_part
cut_last [] n sep h = ([], n, [], rw ((==_iff sep sep).1 refl, split-Lacks n sep h) refl, refl)
cut_last (c ∷ p) n sep h =
    let (a, b, rs, q, l) = cut_last p n sep h in
    elim (Bool-cases (c == sep)) [
      | inl t ↦ ([], a, b ∷ rs, rw (t, q) refl, l)
      | inr t ↦ (c ∷ a, b, rs, rw (t, q) refl, l)
    ]

last_part-split : (p n : Bytes) → Lacks b'/' n → last_part (split (p ++ (b'/' ∷ n)) b'/') ≡ n
last_part-split p n h = let (a, b, rs, q, l) = cut_last p n b'/' h in ap last_part q ∙ l

-- The keys under the folder of the ready keys of an index are ready keys of nodes.
abbrev pub HasReadyKeys : Bytes → Bytes → Map Bytes (Option ℤ) → Type 0
HasReadyKeys root name kvs =
    (key : Bytes) (v : Option ℤ)
    → In (key, v) kvs
    → has_prefix key (revision_ready_path_prefix root name) ≡ true
    → (n : Bytes) × Lacks b'/' n × (key ≡ revision_ready_path root name n)

-- The ready key of the node is there, with the revision and no other value.
abbrev pub Signals : Bytes → Bytes → ℤ → Bytes → Map Bytes (Option ℤ) → Type 0
Signals root name r node kvs =
    In (revision_ready_path root name node, some r) kvs
    × ((v : Option ℤ) → In (revision_ready_path root name node, v) kvs → v ≡ some r)

module _ (root name node : Bytes) (r : ℤ) where
  spelled :
      (n : Bytes) → Lacks b'/' n → last_part (split (revision_ready_path root name n) b'/') ≡ n
  unfolding revision_ready_path
  spelled n h = last_part-split (revision_ready_path_prefix root name) n h

  under :
      (n : Bytes)
      → has_prefix (revision_ready_path root name n) (revision_ready_path_prefix root name) ≡ true
  unfolding revision_ready_path
  under n = has_prefix-append (revision_ready_path_prefix root name) (b'/' ∷ n)

  -- A ready key that is noted does not take the place of the node's revision.
  noted_keeps :
      (key : Bytes) (v : Option ℤ) (m : Map Bytes ℤ)
      → (n : Bytes) × Lacks b'/' n × (key ≡ revision_ready_path root name n)
      → (key ≡ revision_ready_path root name node → v ≡ some r)
      → load node m ≡ some r
      → load node (note_ready key v m) ≡ some r
  unfolding note_ready
  noted_keeps key none m s h q = q
  noted_keeps key (some x) m (n, lacks, e) h q =
      let name_is : last_part (split key b'/') ≡ n =
        ap (λ k. last_part (split k b'/')) e ∙ spelled n lacks in
      load-store (last_part (split key b'/')) node x m
      ∙ elim (Bool-cases (bytes_same (last_part (split key b'/')) node)) [
        | inl t ↦
            let same : n ≡ node = sym name_is ∙ (bytes_same_iff _ node).0 t in
            rw t (h (e ∙ ap (revision_ready_path root name) same))
        | inr t ↦ rw t q
      ]

  noted_there :
      (key : Bytes) (v : Option ℤ) (m : Map Bytes ℤ)
      → Lacks b'/' node
      → key ≡ revision_ready_path root name node
      → v ≡ some r
      → load node (note_ready key v m) ≡ some r
  unfolding note_ready
  noted_there key none m lacks e q = absurd (cc)
  noted_there key (some x) m lacks e q =
      let name_is : last_part (split key b'/') ≡ node =
        ap (λ k. last_part (split k b'/')) e ∙ spelled node lacks in
      load-store (last_part (split key b'/')) node x m ∙ rw ((bytes_same_iff _ node).1 name_is) q

  ready_keeps :
      (kvs : Map Bytes (Option ℤ)) (m : Map Bytes ℤ)
      → HasReadyKeys root name kvs
      → ((v : Option ℤ) → In (revision_ready_path root name node, v) kvs → v ≡ some r)
      → load node m ≡ some r
      → load node (ready_nodes (revision_ready_path_prefix root name) kvs m) ≡ some r
  unfolding ready_nodes
  ready_keeps [] m keys one q = q
  ready_keeps ((key, v) ∷ kvs) m keys one q =
      elim (Bool-cases (has_prefix key (revision_ready_path_prefix root name))) [
        | inl t ↦
            rw (t, ready_nodes)
              (ready_keeps kvs (note_ready key v m) (λ k w i. keys k w (inr i))
                (λ w i. one w (inr i))
                (noted_keeps key v m (keys key v (inl refl) t) (λ e. one v (inl (λ i. (e i, v))))
                  q))
        | inr t ↦
            rw (t, ready_nodes)
              (ready_keeps kvs m (λ k w i. keys k w (inr i)) (λ w i. one w (inr i)) q)
      ]

  ready_there :
      (kvs : Map Bytes (Option ℤ)) (m : Map Bytes ℤ)
      → Lacks b'/' node
      → HasReadyKeys root name kvs
      → In (revision_ready_path root name node, some r) kvs
      → ((v : Option ℤ) → In (revision_ready_path root name node, v) kvs → v ≡ some r)
      → load node (ready_nodes (revision_ready_path_prefix root name) kvs m) ≡ some r
  unfolding ready_nodes
  ready_there [] m lacks keys i one = elim i [ ]
  ready_there ((key, v) ∷ kvs) m lacks keys (inl e) one =
      let key_is : key ≡ revision_ready_path root name node =
        ap (λ (p : Bytes × Option ℤ). p.0) e in
      let v_is : v ≡ some r = ap (λ (p : Bytes × Option ℤ). p.1) e in
      let t : has_prefix key (revision_ready_path_prefix root name) ≡ true =
        ap (λ k. has_prefix k (revision_ready_path_prefix root name)) key_is ∙ under node in
      rw (t, ready_nodes)
        (ready_keeps kvs (note_ready key v m) (λ k w i. keys k w (inr i)) (λ w i. one w (inr i))
          (noted_there key v m lacks key_is v_is))
  ready_there ((key, v) ∷ kvs) m lacks keys (inr i) one =
      elim (Bool-cases (has_prefix key (revision_ready_path_prefix root name))) [
        | inl t ↦
            rw (t, ready_nodes)
              (ready_there kvs (note_ready key v m) lacks (λ k w i. keys k w (inr i)) i
                (λ w i. one w (inr i)))
        | inr t ↦
            rw (t, ready_nodes)
              (ready_there kvs m lacks (λ k w i. keys k w (inr i)) i (λ w i. one w (inr i)))
      ]

  -- What is read of the ready key of a node.
  pub ready_nodes-Signals :
      (kvs : Map Bytes (Option ℤ))
      → Lacks b'/' node
      → HasReadyKeys root name kvs
      → Signals root name r node kvs
      → load node (ready_nodes (revision_ready_path_prefix root name) kvs []) ≡ some r
  ready_nodes-Signals kvs lacks keys (i, one) = ready_there kvs [] lacks keys i one
