-- ===== src/Tests/Buckets.antt =====
-- A shard that is fetched from a bucket.
use vectory.Base.{
  if◌then◌else◌, ◌≡◌, ◌⊎◌, refl, [], Option, none, some, Bytes, codes, bytes_key, bytes_same,
  if◌then◌else◌, load, pos, ◌<ℤ◌, ap, sym, ◌∙◌,
}
use vectory.Errors.{Err, ok, err, plain, Result}
use vectory.Download.Bucket.{
  Bucket, content, Disk, Files, S3Dl, object_key, download_update, trim_space,
}
use vectory.Download.Bucket.Fetching.{IsFresh, SameFiles, download_update-Fetches}
use vectory.Tests.Data.{folder_source, first_shard}

abbrev from_bucket : S3Dl
from_bucket = record {
  source = folder_source;
  shard = first_shard;
  bucket = codes "k";
  folder = [];
}

abbrev bucket : Bucket
bucket name key =
    if bytes_same key (codes "_revision") then content (codes "2\n") else content (codes "x")

-- The pattern itself is the name, if there is no such file.
abbrev if_free : Bytes → Option Bytes → Result Bytes
if_free name none = ok name
if_free name (some b) = err (plain (codes "exists"))

abbrev disk : Disk
disk = record { create = λ files pattern. if_free pattern (load pattern files); partial = [] }

free_is_fresh :
    (files : Files) (pattern name : Bytes) (o : Option Bytes)
    → load pattern files ≡ o
    → if_free pattern o ≡ ok name
    → load name files ≡ none
free_is_fresh files pattern name none h q =
    let same : pattern ≡ name = cc in ap (λ x. load x files) (sym same) ∙ h
free_is_fresh files pattern name (some b) h q = absurd (cc)

disk-IsFresh : IsFresh disk
disk-IsFresh files pattern name q = free_is_fresh files pattern name (load pattern files) refl q

trimmed : trim_space (codes " 2\n") ≡ codes "2"
unfolding trim_space
trimmed = refl

abbrev no_files : Files
no_files = []

download_update-Fetches_example :
    let o = download_update disk bucket bucket from_bucket (pos 1) no_files in
    ((o.0.error ≡ none)
      × (pos 1 <ℤ o.0.revision)
      × ((b : Bytes) × (bucket (codes "k") (object_key from_bucket o.0.revision) ≡ content b)
          × (load o.0.path no_files ≡ none)
          × ((x : Bytes)
              → load x o.1 ≡ (if bytes_same o.0.path x then some b else load x no_files))))
    ⊎ ((e : Err) × (o.0.error ≡ some e) × SameFiles no_files o.1)
download_update-Fetches_example =
    download_update-Fetches disk bucket bucket from_bucket (pos 1) no_files disk-IsFresh refl
