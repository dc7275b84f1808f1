-- ===== src/Tests/Data.antt =====
-- The inputs of the examples: an index of two shards with two replicas each, its library, loader and
-- file system, and a small hash ring.
use vectory.Base.{
  suc, ◌≡◌, refl, Bool, true, false, List, [], ◌∷◌, Option, none, some, Bytes, codes, bytes_same,
  bytes_same_iff, ℤ, pos, if◌then◌else◌, arith,
}
use vectory.Errors.{ok}
use vectory.Status.{NodeStatus}
use vectory.Shard.{Shard, IndexMeta, IndexSource, SourceType, IndexManifest, IndexType, shard_of}
use vectory.Faiss.{FaissIndex, Native, Loader, Library, Fetch, Downloader}
use vectory.Index.{loaded_index}
use vectory.Cluster.{Hashring, NodeMeta, EtcdManager}

abbrev pub books_meta : IndexMeta
books_meta = record {
  name = codes "b";
  kind = IndexType.mock;
  input_dim = pos 2;
  shards = pos 2;
  replicas = pos 2;
  c_time = pos 0;
  m_time = pos 0;
  version = [];
}

abbrev pub folder_source : IndexSource
folder_source = record {
  kind = SourceType.local_path;
  location = codes "/d";
  name_fmt = codes "{index_name}";
  endpoint = [];
  access_key = [];
  secret_key = [];
  use_ssl = false;
}

abbrev pub books : IndexManifest
books = record { meta = books_meta; source = some folder_source; reload = none }

abbrev pub first_shard : Shard
first_shard = shard_of books_meta (pos 0) (pos 0)

abbrev pub second_shard : Shard
second_shard = shard_of books_meta (pos 1) (pos 0)

-- A loader that always finds the next revision, and always reads it as handle 7.
abbrev pub next_fetch : ℤ → Fetch
next_fetch (pos n) = record { path = codes "/d/f"; revision = pos (suc n); error = none }
next_fetch (ℤ.negsuc n) = record { path = codes "/d/f"; revision = pos 0; error = none }

abbrev pub next_downloader : Downloader
next_downloader = record { download = next_fetch (pos 0); download_update = next_fetch }

abbrev pub next_loader : Loader
next_loader = record { new_downloader = λ s i. ok next_downloader; read_index = λ p. ok 7 }

-- A library of indexes of dimension 2 that finds the vector 4.
abbrev pub finds_four : Library
finds_four = record { dimension = λ h. pos 2; search = λ h x k. ok (0x3f000000 ∷ [], pos 4 ∷ []) }

-- Serving handle 3 at revision 1.
abbrev pub serving : FaissIndex
serving = loaded_index books folder_source first_shard (pos 1) 3

abbrev pub one_open : Native
one_open = record { opened = 3 ∷ []; freed = [] }

-- Serving handle 3 at revision 1, with handle 7 staged at revision 2.
abbrev pub staged : FaissIndex
staged = record serving { staged_index = some 7; staged_revision = pos 2 }

abbrev pub two_open : Native
two_open = record { opened = 7 ∷ 3 ∷ []; freed = [] }

-- A ring that gives every key to the node that was added last.
abbrev pub list_has : List Bytes → Bytes → Bool
list_has [] m = false
list_has (n ∷ ns) m = if bytes_same n m then true else list_has ns m

abbrev pub list_remove : List Bytes → Bytes → List Bytes
list_remove [] n = []
list_remove (m ∷ ms) n = if bytes_same n m then list_remove ms n else m ∷ list_remove ms n

abbrev pub list_first : List Bytes → Bytes → Option Bytes
list_first [] key = none
list_first (n ∷ ns) key = some n

pub first_is_there :
    (r : List Bytes) (key n : Bytes) → list_first r key ≡ some n → list_has r n ≡ true
first_is_there [] key n h = absurd (cc)
first_is_there (m ∷ ms) key n h = let same : m ≡ n = cc in rw ((bytes_same_iff m n).1 same)

pub none_is_there :
    (r : List Bytes) (key n : Bytes) → list_first r key ≡ none → list_has r n ≡ false
none_is_there [] key n h = refl
none_is_there (m ∷ ms) key n h = absurd (cc)

pub removed :
    (r : List Bytes) (n m : Bytes)
    → list_has (list_remove r n) m ≡ (if bytes_same n m then false else list_has r m)
removed [] n m = ground arith
removed (k ∷ ks) n m =
    ground (arith, removed ks n m, bytes_same_iff n m, bytes_same_iff n k, bytes_same_iff k m)

abbrev pub last_added : Hashring
last_added = record {
  Ring = List Bytes;
  new = λ ns. ns;
  add_node = λ r n. n ∷ r;
  remove_node = list_remove;
  get_node = list_first;
  has = list_has;
  has-get_node = first_is_there;
  get_node-none = none_is_there;
  has-add_node = λ r n m. refl;
  has-remove_node = removed;
  has-new-nil = λ m. refl;
  has-new-cons = λ n ns m. refl;
}

abbrev pub node_a : NodeMeta
node_a = record { node_id = codes "a"; addr = codes "1.2.3.4"; status = NodeStatus.healthy }

abbrev pub sees_a : EtcdManager (List Bytes)
sees_a = record {
  node_id = codes "a";
  ring = some (codes "a" ∷ []);
  node_meta_map = (codes "a", node_a) ∷ [];
  attached_load = false;
}
