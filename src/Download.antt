-- ===== src/Download.antt =====
-- internal/engine/downloader.go and local_dl.go: where the files of an index lie, and how a shard is
-- fetched from a local folder. A file system is an argument; `DownloadUpdate` reads it twice, and
-- takes one for each time.
pub mod FilePath
pub mod Local
pub mod S3
pub mod Bucket
use vectory.Base.{
  ℕ, ◌≡◌, refl, Bool, true, false, List, [], ◌∷◌, ◌++◌, Option, none, some, Bytes, codes, ℤ, pos,
  leb_ℤ, atoi, itoa, if◌then◌else◌,
}
use vectory.Errors.{
  Err, get_revision_failed, shard_file_not_found, index_revision_up_to_date, plain, Result, ok, err,
}
use vectory.Shard.{Shard, IndexSource, SourceType}
use vectory.Faiss.{Fetch, Downloader}
use FilePath.{join, replace_all}

abbrev revision_file : Bytes
revision_file = codes "_revision"

unfoldable pub latest_revision_path : IndexSource → Bytes
latest_revision_path s = join (s.location ∷ revision_file ∷ [])

unfoldable pub revision_dir_path : IndexSource → ℤ → Bytes
revision_dir_path s revision = join (s.location ∷ itoa revision ∷ [])

unfoldable pub shard_rel_path : IndexSource → ℤ → Shard → Bytes
shard_rel_path s revision shard =
    let named = replace_all s.name_fmt (codes "{index_name}") shard.index_name in
    let file = replace_all named (codes "{shard_id}") (itoa shard.shard_id) in
    join (itoa revision ∷ file ∷ [])

unfoldable pub shard_file_path : IndexSource → ℤ → Shard → Bytes
shard_file_path s revision shard = join (s.location ∷ shard_rel_path s revision shard ∷ [])

pub record FileSystem : Type 0 where
  pub read_file : Bytes → Result Bytes
  pub exists : Bytes → Bool

parse_revision : Option ℤ → Result ℤ
parse_revision none = err get_revision_failed
parse_revision (some z) = ok z

revision_of : Result Bytes → Result ℤ
unfolding parse_revision
revision_of (err e) = err get_revision_failed
revision_of (ok b) = parse_revision (atoi b)

unfoldable pub read_revision : FileSystem → IndexSource → Result ℤ
unfolding revision_of
read_revision fs s = revision_of (fs.read_file (latest_revision_path s))

abbrev failed : Err → Fetch
failed e = record { path = []; revision = pos 0; error = some e }

find_shard : FileSystem → IndexSource → Shard → Result ℤ → Fetch
find_shard fs s shard (err e) = failed get_revision_failed
find_shard fs s shard (ok r) =
    if fs.exists (shard_file_path s r shard)
    then record { path = shard_file_path s r shard; revision = r; error = none }
    else failed shard_file_not_found

-- `localDl.Download`
unfoldable pub download : FileSystem → IndexSource → Shard → Fetch
unfolding find_shard
download fs s shard = find_shard fs s shard (read_revision fs s)

update_after : FileSystem → IndexSource → Shard → ℤ → Result ℤ → Fetch
update_after fs s shard current (err e) = failed get_revision_failed
update_after fs s shard current (ok r) =
    if leb_ℤ r current
    then record { path = []; revision = r; error = some index_revision_up_to_date }
    else download fs s shard

-- `localDl.DownloadUpdate`: it reads the revision in the first file system, and downloads from the
-- second, as they are at the two times.
unfoldable pub download_update : FileSystem → FileSystem → IndexSource → Shard → ℤ → Fetch
unfolding update_after
download_update before after s shard current =
    update_after after s shard current (read_revision before s)

abbrev source_name : SourceType → Bytes
source_name SourceType.local_path = codes "local_path"
source_name SourceType.s3 = codes "s3"
source_name (SourceType.other t) = t

downloader_for :
    FileSystem
    → FileSystem
    → (IndexSource → Shard → Result Downloader)
    → IndexSource
    → Shard
    → SourceType
    → Result Downloader
downloader_for before after new_s3 s shard SourceType.local_path = ok (record {
  download = download before s shard;
  download_update = download_update before after s shard;
})
downloader_for before after new_s3 s shard SourceType.s3 = new_s3 s shard
downloader_for before after new_s3 s shard (SourceType.other t) =
    err (plain (codes "unsupported source type: " ++ t))

-- `NewDownLoader`; the S3 downloader is an argument.
unfoldable pub new_downloader :
    FileSystem
    → FileSystem
    → (IndexSource → Shard → Result Downloader)
    → IndexSource
    → Shard
    → Result Downloader
unfolding downloader_for
new_downloader before after new_s3 s shard = downloader_for before after new_s3 s shard s.kind
