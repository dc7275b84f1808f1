-- ===== src/Config/Paths.antt =====
-- internal/config/path.go: keys in etcd. The root is an argument (`GetEnvEtCDRoot`).
use vectory.Base.{
  ◌≡◌, [], ◌∷◌, ◌++◌, append_assoc, Option, none, some, Bytes, codes, Lacks, has_prefix,
  has_prefix-append, trim_prefix, trim_prefix-append, ap, sym, ◌∙◌, split_two, split_two-append,
  bytes_same, if◌then◌else◌,
}

unfoldable pub node_meta_path_prefix : Bytes → Bytes
node_meta_path_prefix root = root ++ codes "/node/meta"

unfoldable pub node_meta_path : Bytes → Bytes → Bytes
node_meta_path root id = node_meta_path_prefix root ++ (b'/' ∷ id)

unfoldable pub node_load_path : Bytes → Bytes → Bytes
node_load_path root id = root ++ (codes "/node/load/" ++ id)

unfoldable pub index_manifest_path_prefix : Bytes → Bytes
index_manifest_path_prefix root = root ++ codes "/index"

-- The folder is an argument (`GetLocalIndexRootPath`).
unfoldable pub local_index_path : Bytes → Bytes → Bytes
local_index_path folder file = folder ++ (b'/' ∷ file)

unfoldable pub revision_commit_path_prefix : Bytes → Bytes
revision_commit_path_prefix root = root ++ codes "/revision"

unfoldable pub revision_ready_path_prefix : Bytes → Bytes → Bytes
revision_ready_path_prefix root name = root ++ (codes "/revision/" ++ (name ++ codes "/ready"))

unfoldable pub revision_ready_path : Bytes → Bytes → Bytes → Bytes
revision_ready_path root name node = revision_ready_path_prefix root name ++ (b'/' ∷ node)

unfoldable pub revision_commit_path : Bytes → Bytes → Bytes
revision_commit_path root name = root ++ (codes "/revision/" ++ (name ++ codes "/commit"))

name_of_parts : Bytes × Option Bytes → Bytes
name_of_parts (name, none) = []
name_of_parts (name, some rest) = if bytes_same rest (codes "commit") then name else []

-- `parseIndexNameFromCommitKey` of internal/engine/manager.go; the empty name says that the key is
-- no commit key.
unfoldable pub parse_index_name_from_commit_key : Bytes → Bytes → Bytes
unfolding name_of_parts
parse_index_name_from_commit_key root key =
    let folder = revision_commit_path_prefix root in
    if has_prefix key folder
    then name_of_parts (split_two (trim_prefix key (folder ++ codes "/")) b'/')
    else []

-- What the key of a commit or of a ready mark looks like behind the folder.
in_folder :
    (root rest : Bytes)
    → parse_index_name_from_commit_key root (root ++ (codes "/revision/" ++ rest))
      ≡ name_of_parts (split_two rest b'/')
unfolding parse_index_name_from_commit_key revision_commit_path_prefix
in_folder root rest =
    let folder : Bytes = root ++ codes "/revision" in
    let whole : root ++ (codes "/revision/" ++ rest) ≡ folder ++ (b'/' ∷ rest) =
      sym (append_assoc root (codes "/revision") (b'/' ∷ rest)) in
    let inside = ap (λ k. has_prefix k folder) whole ∙ has_prefix-append folder (b'/' ∷ rest) in
    let parts = sym (append_assoc folder (codes "/") rest) in
    let behind =
      ap (λ k. trim_prefix k (folder ++ codes "/")) (whole ∙ parts)
      ∙ trim_prefix-append (folder ++ codes "/") rest in
    rw (inside, behind)

read_name :
    (name : Bytes)
    → Lacks b'/' name
    → name_of_parts (split_two (name ++ codes "/commit") b'/') ≡ name
unfolding name_of_parts
read_name name h = rw (split_two-append name (codes "commit") b'/' h)

-- The commit key of an index is read back as its name, if the name has no slash.
pub parse_index_name-revision_commit_path :
    (root name : Bytes)
    → Lacks b'/' name
    → parse_index_name_from_commit_key root (revision_commit_path root name) ≡ name
unfolding revision_commit_path
parse_index_name-revision_commit_path root name h =
    in_folder root (name ++ codes "/commit") ∙ read_name name h

ready_path_shape :
    (root name node : Bytes)
    → revision_ready_path root name node
      ≡ root ++ (codes "/revision/" ++ (name ++ (b'/' ∷ (codes "ready/" ++ node))))
unfolding revision_ready_path revision_ready_path_prefix
ready_path_shape root name node = simp append_assoc

no_commit :
    (name rest : Bytes)
    → Lacks b'/' name
    → name_of_parts (split_two (name ++ (b'/' ∷ (codes "ready/" ++ rest))) b'/') ≡ []
unfolding name_of_parts
no_commit name rest h = rw (split_two-append name (codes "ready/" ++ rest) b'/' h)

-- A node's ready key is not taken for a commit key, whatever the node is called, if the index name
-- has no slash.
pub parse_index_name-revision_ready_path :
    (root name node : Bytes)
    → Lacks b'/' name
    → parse_index_name_from_commit_key root (revision_ready_path root name node) ≡ []
parse_index_name-revision_ready_path root name node h =
    ap (parse_index_name_from_commit_key root) (ready_path_shape root name node)
    ∙ in_folder root (name ++ (b'/' ∷ (codes "ready/" ++ node)))
    ∙ no_commit name node h
