-- ===== src/Download/Bucket.antt =====
-- internal/engine/s3_dl.go: a shard is fetched from a bucket into a temporary file. The bucket is an
-- argument; `DownloadUpdate` reads it at several times, and takes one for the first read and one for
-- the others. The state is what the temporary folder holds.
pub mod Fetching
use vectory.Base.{
  ℕ, zero, suc, Bool, true, false, List, [], ◌∷◌, ◌++◌, map, Option, none, some, Bytes, codes,
  bytes_key, is_empty, has_prefix, strip, length, Map, store, delete, ℤ, pos, leb_ℤ, atoi, itoa,
  if◌then◌else◌, ◌||◌,
}
use mathlib.Core.List.{reverse}
use vectory.Errors.{
  Err, get_revision_failed, index_revision_up_to_date, plain, message, Result, ok, err,
}
use vectory.Shard.{Shard, IndexSource}
use vectory.Faiss.{Fetch, Downloader}
use vectory.Download.{revision_file, shard_rel_path, failed}
use vectory.Download.S3.{parse_s3_location, s3_key}

-- The encodings of the characters that strings.TrimSpace takes for white space.
abbrev white_space : List Bytes
white_space =
    (9 ∷ [])
    ∷ (10 ∷ [])
    ∷ (11 ∷ [])
    ∷ (12 ∷ [])
    ∷ (13 ∷ [])
    ∷ (32 ∷ [])
    ∷ (194 ∷ 133 ∷ [])
    ∷ (194 ∷ 160 ∷ [])
    ∷ (225 ∷ 154 ∷ 128 ∷ [])
    ∷ (226 ∷ 128 ∷ 128 ∷ [])
    ∷ (226 ∷ 128 ∷ 129 ∷ [])
    ∷ (226 ∷ 128 ∷ 130 ∷ [])
    ∷ (226 ∷ 128 ∷ 131 ∷ [])
    ∷ (226 ∷ 128 ∷ 132 ∷ [])
    ∷ (226 ∷ 128 ∷ 133 ∷ [])
    ∷ (226 ∷ 128 ∷ 134 ∷ [])
    ∷ (226 ∷ 128 ∷ 135 ∷ [])
    ∷ (226 ∷ 128 ∷ 136 ∷ [])
    ∷ (226 ∷ 128 ∷ 137 ∷ [])
    ∷ (226 ∷ 128 ∷ 138 ∷ [])
    ∷ (226 ∷ 128 ∷ 168 ∷ [])
    ∷ (226 ∷ 128 ∷ 169 ∷ [])
    ∷ (226 ∷ 128 ∷ 175 ∷ [])
    ∷ (226 ∷ 129 ∷ 159 ∷ [])
    ∷ (227 ∷ 128 ∷ 128 ∷ [])
    ∷ []

-- Without the first of the strings that it starts with.
trim_one : List Bytes → Bytes → Option Bytes
trim_one [] s = none
trim_one (w ∷ ws) s = let rest = trim_one ws s in if has_prefix s w then some (strip s w) else rest

-- On fuel: each step takes at least a byte, so the length of the string is enough.
trim_front : List Bytes → ℕ → Bytes → Bytes
unfolding trim_one
trim_front ws zero s = s
trim_front ws (suc n) s = elim (trim_one ws s) [ none ↦ s | some rest ↦ trim_front ws n rest ]

-- strings.TrimSpace
unfoldable pub trim_space : Bytes → Bytes
unfolding trim_front
trim_space s =
    let front = trim_front white_space (length s) s in
    reverse (trim_front (map reverse white_space) (length front) (reverse front))

-- The answer to a read of an object: the client refuses it, the body cannot be read, or its content.
pub data Reply : Type 0 where
  refused : Err → Reply
  unreadable : Err → Reply
  content : Bytes → Reply

-- GetObject by bucket and key.
abbrev pub Bucket : Type 0
Bucket = Bytes → Bytes → Reply

-- The temporary folder: its files, and the name that os.CreateTemp finds for a pattern.
abbrev pub Files : Type 0
Files = Map Bytes Bytes

abbrev pub CreateTemp : Type 0
CreateTemp = Files → Bytes → Result Bytes

-- What was written of a body before it could not be read any more is an argument.
pub record Disk : Type 0 where
  pub create : CreateTemp
  pub partial : Bytes

pub record S3Dl : Type 0 where
  pub source : IndexSource
  pub shard : Shard
  pub bucket : Bytes
  pub folder : Bytes

with_client : IndexSource → Shard → Bytes × Bytes → Option Err → Result S3Dl
with_client s shard p (some e) = err (plain (codes "create minio client: " ++ message e))
with_client s shard (bucket, folder) none =
    ok (record { source = s; shard = shard; bucket = bucket; folder = folder })

with_location : Option Err → IndexSource → Shard → Result (Bytes × Bytes) → Result S3Dl
unfolding with_client
with_location client s shard (err e) = err e
with_location client s shard (ok p) = with_client s shard p client

abbrev no_endpoint : Err
no_endpoint =
    plain (codes "s3 source requires endpoint, e.g. \"s3.amazonaws.com\" or \"play.min.io:9000\"")

-- `newS3Dl`; `client` is the error of minio.New, if there is one.
unfoldable pub new_s3_dl : (IndexSource → Option Err) → IndexSource → Shard → Result S3Dl
unfolding with_location
new_s3_dl client s shard =
    if is_empty s.endpoint
    then err no_endpoint
    else if is_empty s.access_key || is_empty s.secret_key
    then err (plain (codes "s3 source requires access_key and secret_key"))
    else with_location (client s) s shard (parse_s3_location s.location)

-- The revision, or `none` for an error: the callers do not look at which.
revision_in : Reply → Option ℤ
revision_in (refused e) = none
revision_in (unreadable e) = none
revision_in (content b) = atoi (trim_space b)

-- `s3Dl.readRevision`
unfoldable pub read_revision : Bucket → S3Dl → Option ℤ
unfolding revision_in
read_revision get d = revision_in (get d.bucket (s3_key d.folder revision_file))

-- The key of the shard's object.
unfoldable pub object_key : S3Dl → ℤ → Bytes
object_key d r = s3_key d.folder (shard_rel_path d.source r d.shard)

abbrev temp_pattern : S3Dl → ℤ → Bytes
temp_pattern d r = codes "vectory-s3-" ++ (d.shard.index_name ++ (b'-' ∷ (itoa r ++ codes "-*")))

get_failed : S3Dl → ℤ → Err → Err
get_failed d r e =
    plain (
      codes "get S3 object "
      ++ (d.bucket ++ (b'/' ∷ (object_key d r ++ (codes ": " ++ message e)))))

-- `io.Copy` into the file just made; if it fails the file is removed.
copied : Disk → Files → Reply → Bytes → Result Bytes × Files
copied k files (content b) name = (ok name, store name b files)
copied k files (unreadable e) name = (
  err (plain (codes "write S3 object to temp file: " ++ message e)),
  delete name (store name k.partial files),
)
copied k files (refused e) name = (err e, files)

into_temp : Disk → Files → Reply → Result Bytes → Result Bytes × Files
unfolding copied
into_temp k files body (err e) = (err (plain (codes "create temp file: " ++ message e)), files)
into_temp k files body (ok name) = copied k files body name

put_object : Disk → S3Dl → ℤ → Files → Reply → Result Bytes × Files
unfolding into_temp get_failed
put_object k d r files (refused e) = (err (get_failed d r e), files)
put_object k d r files body = into_temp k files body (k.create files (temp_pattern d r))

-- `s3Dl.downloadShardFile`
unfoldable pub download_shard_file : Disk → Bucket → S3Dl → ℤ → Files → Result Bytes × Files
unfolding put_object
download_shard_file k get d r files = put_object k d r files (get d.bucket (object_key d r))

fetched : ℤ → Result Bytes × Files → Fetch × Files
fetched r (err e, files) = (failed e, files)
fetched r (ok name, files) = (record { path = name; revision = r; error = none }, files)

download_at : Disk → Bucket → S3Dl → Files → Option ℤ → Fetch × Files
unfolding fetched
download_at k get d files none = (failed get_revision_failed, files)
download_at k get d files (some r) = fetched r (download_shard_file k get d r files)

-- `s3Dl.Download`
unfoldable pub download : Disk → Bucket → S3Dl → Files → Fetch × Files
unfolding download_at
download k get d files = download_at k get d files (read_revision get d)

update_at : Disk → Bucket → S3Dl → ℤ → Files → Option ℤ → Fetch × Files
update_at k get d current files none = (failed get_revision_failed, files)
update_at k get d current files (some r) =
    if leb_ℤ r current
    then (record { path = []; revision = r; error = some index_revision_up_to_date }, files)
    else download k get d files

-- `s3Dl.DownloadUpdate`
unfoldable pub download_update : Disk → Bucket → Bucket → S3Dl → ℤ → Files → Fetch × Files
unfolding update_at
download_update k before after d current files =
    update_at k after d current files (read_revision before d)

as_downloader : Disk → Bucket → Bucket → Files → Result S3Dl → Result Downloader
as_downloader k before after files (err e) = err e
as_downloader k before after files (ok d) = ok (record {
  download = (download k before d files).0;
  download_update = λ current. (download_update k before after d current files).0;
})

-- The S3 source as NewDownLoader takes it.
unfoldable pub s3_downloader :
    (IndexSource → Option Err)
    → Disk
    → Bucket
    → Bucket
    → Files
    → IndexSource
    → Shard
    → Result Downloader
unfolding as_downloader
s3_downloader client k before after files s shard =
    as_downloader k before after files (new_s3_dl client s shard)
