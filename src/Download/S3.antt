-- ===== src/Download/S3.antt =====
-- internal/engine/s3_dl.go: locations in a bucket.
use vectory.Base.{
  ◌≡◌, ◌≢◌, refl, [], ◌∷◌, ◌++◌, Option, none, some, Bytes, codes, Lacks, is_empty, split_two,
  split_two-append, trim_prefix, if◌then◌else◌,
}
use vectory.Errors.{Err, plain, Result, ok, err}

bucket_of : Bytes → Bytes × Option Bytes → Result (Bytes × Bytes)
bucket_of location ([], rest) = err (plain (codes "invalid S3 location: " ++ location))
bucket_of location (c ∷ bucket, none) = ok (c ∷ bucket, [])
bucket_of location (c ∷ bucket, some key) = ok (c ∷ bucket, key)

-- `parseS3Location`
unfoldable pub parse_s3_location : Bytes → Result (Bytes × Bytes)
unfolding bucket_of
parse_s3_location location =
    bucket_of location (split_two (trim_prefix location (codes "s3://")) b'/')

-- `s3Key`
unfoldable pub s3_key : Bytes → Bytes → Bytes
s3_key folder relative = if is_empty folder then relative else folder ++ (b'/' ∷ relative)

-- A location with the scheme, a bucket that is not empty and has no slash, and a prefix is parsed
-- into the bucket and the prefix, whatever the prefix holds.
pub parse_s3_location_lem :
    (bucket folder : Bytes)
    → bucket ≢ []
    → Lacks b'/' bucket
    → parse_s3_location (codes "s3://" ++ (bucket ++ (b'/' ∷ folder))) ≡ ok (bucket, folder)
unfolding parse_s3_location
parse_s3_location_lem [] folder n h = absurd (n refl)
parse_s3_location_lem (c ∷ bucket) folder n h = rw (split_two-append (c ∷ bucket) folder b'/' h)

-- Without a bucket the location is refused.
pub parse_s3_location-nil :
    (folder : Bytes) → (e : Err) × (parse_s3_location (codes "s3:///" ++ folder) ≡ err e)
unfolding parse_s3_location split_two
parse_s3_location-nil folder = (_, refl)
