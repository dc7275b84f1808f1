-- ===== src/Download/Bucket/Fetching.antt =====
-- What the S3 downloader fetches, and what it leaves in the temporary folder.
use vectory.Base.{
  ◌≡◌, ◌⊎◌, inl, inr, refl, sym, ap, ◌∙◌, subst, false, Option, none, some, Bytes, bytes_key,
  bytes_same, bytes_same_iff, load, store, delete, load-store, load-delete, ℤ, ◌<ℤ◌, leb_ℤ, arith,
  Bool-cases, if◌then◌else◌,
}
use vectory.Errors.{Err, Result, ok, err, get_revision_failed, index_revision_up_to_date}
use vectory.Faiss.{Fetch}
use vectory.Download.Bucket.{
  Reply, refused, unreadable, content, Bucket, Files, Disk, S3Dl, read_revision, object_key,
  temp_pattern, copied, into_temp, put_object, download_shard_file, fetched, download_at, download,
  update_at, download_update,
}

-- os.CreateTemp makes a new file.
abbrev pub IsFresh : Disk → Type 0
IsFresh k =
    (files : Files) (pattern name : Bytes)
    → k.create files pattern ≡ ok name
    → load name files ≡ none

abbrev pub SameFiles : Files → Files → Type 0
SameFiles a b = (q : Bytes) → load q b ≡ load q a

-- Either the content of the object is in one file more, or there is an error and the files are as
-- they were.
abbrev pub Puts : Reply → Files → Result Bytes × Files → Type 0
Puts body files o =
    ((b : Bytes) × (name : Bytes) × (body ≡ content b)
      × (o.0 ≡ ok name)
      × (load name files ≡ none)
      × (o.1 ≡ store name b files))
    ⊎ ((e : Err) × (o.0 ≡ err e) × SameFiles files o.1)

removed_again :
    (name b : Bytes) (files : Files)
    → load name files ≡ none
    → SameFiles files (delete name (store name b files))
removed_again name b files h q =
    load-delete name q (store name b files) ∙ elim (Bool-cases (bytes_same name q)) [
      | inl e ↦ rw e (sym (ap (λ x. load x files) (sym ((bytes_same_iff name q).0 e)) ∙ h))
      | inr e ↦ rw e (load-store name q b files ∙ rw e refl)
    ]

copied-Puts :
    (k : Disk) (files : Files) (body : Reply) (name : Bytes)
    → load name files ≡ none
    → Puts body files (copied k files body name)
unfolding copied
copied-Puts k files (content b) name h = inl (b, name, refl, refl, h, refl)
copied-Puts k files (unreadable e) name h = inr (_, refl, removed_again name k.partial files h)
copied-Puts k files (refused e) name h = inr (e, refl, λ q. refl)

into_temp-Puts :
    (k : Disk) (files : Files) (body : Reply) (r : Result Bytes)
    → ((name : Bytes) → r ≡ ok name → load name files ≡ none)
    → Puts body files (into_temp k files body r)
unfolding into_temp
into_temp-Puts k files body (err e) h = inr (_, refl, λ q. refl)
into_temp-Puts k files body (ok name) h = copied-Puts k files body name (h name refl)

put_object-Puts :
    (k : Disk) (d : S3Dl) (r : ℤ) (files : Files) (body : Reply)
    → IsFresh k
    → Puts body files (put_object k d r files body)
unfolding put_object
put_object-Puts k d r files (refused e) f = inr (_, refl, λ q. refl)
put_object-Puts k d r files (unreadable e) f =
    into_temp-Puts k files (unreadable e) _ (f files (temp_pattern d r))
put_object-Puts k d r files (content b) f =
    into_temp-Puts k files (content b) _ (f files (temp_pattern d r))

-- The revision object spells the revision of the result, whose path is of a file, one more than
-- before, that has the content of the shard's object at that revision; or there is an error, and no
-- file more.
abbrev pub Fetches : Bucket → S3Dl → Files → Fetch × Files → Type 0
Fetches get d files o =
    ((b : Bytes) × (read_revision get d ≡ some o.0.revision)
      × (get d.bucket (object_key d o.0.revision) ≡ content b)
      × (o.0.error ≡ none)
      × (load o.0.path files ≡ none)
      × (o.1 ≡ store o.0.path b files))
    ⊎ ((e : Err) × (o.0.error ≡ some e) × SameFiles files o.1)

fetched-Fetches :
    (get : Bucket) (d : S3Dl) (r : ℤ) (files : Files) (o : Result Bytes × Files)
    → read_revision get d ≡ some r
    → Puts (get d.bucket (object_key d r)) files o
    → Fetches get d files (fetched r o)
unfolding fetched
fetched-Fetches get d r files (err e, g) q (inl (b, name, _, z, _, _)) = absurd (cc)
fetched-Fetches get d r files (err e, g) q (inr (x, _, same)) = inr (e, refl, same)
fetched-Fetches get d r files (ok path, g) q (inl (b, name, body, z, new, h)) =
    let p : path ≡ name = cc in
    inl (b, q, body, refl, ap (λ n. load n files) p ∙ new, h ∙ ap (λ n. store n b files) (sym p))
fetched-Fetches get d r files (ok path, g) q (inr (x, z, _)) = absurd (cc)

download_at-Fetches :
    (k : Disk) (get : Bucket) (d : S3Dl) (files : Files) (o : Option ℤ)
    → IsFresh k
    → read_revision get d ≡ o
    → Fetches get d files (download_at k get d files o)
unfolding download_at download_shard_file
download_at-Fetches k get d files none f q = inr (get_revision_failed, refl, λ x. refl)
download_at-Fetches k get d files (some r) f q =
    fetched-Fetches get d r files _ q
      (put_object-Puts k d r files (get d.bucket (object_key d r)) f)

-- `Download` from a bucket either fetches the shard at the revision that the bucket names, into one
-- temporary file more that has the content of the object, or returns an error and leaves no file.
pub download-Fetches :
    (k : Disk) (get : Bucket) (d : S3Dl) (files : Files)
    → IsFresh k
    → Fetches get d files (download k get d files)
unfolding download
download-Fetches k get d files f = download_at-Fetches k get d files (read_revision get d) f refl

leb_ℤ-lt : (a b : ℤ) → leb_ℤ a b ≡ false → b <ℤ a
leb_ℤ-lt a b h = ground arith

-- An update is a download after a first read that found a newer revision; or an error, which leaves
-- no file.
abbrev pub Updates : Disk → Bucket → Bucket → S3Dl → ℤ → Files → Fetch × Files → Type 0
Updates k before after d current files o =
    ((r : ℤ) × (read_revision before d ≡ some r) × (current <ℤ r) × (o ≡ download k after d files))
    ⊎ ((e : Err) × (o.0.error ≡ some e) × (o.1 ≡ files))

update_at-Updates :
    (k : Disk) (before after : Bucket) (d : S3Dl) (current : ℤ) (files : Files) (o : Option ℤ)
    → read_revision before d ≡ o
    → Updates k before after d current files (update_at k after d current files o)
unfolding update_at
update_at-Updates k before after d current files none q = inr (get_revision_failed, refl, refl)
update_at-Updates k before after d current files (some r) q = elim (Bool-cases (leb_ℤ r current)) [
  | inl e ↦ rw e (inr (index_revision_up_to_date, refl, refl))
  | inr e ↦ rw e (inl (r, q, leb_ℤ-lt r current e, refl))
]

pub download_update-Updates :
    (k : Disk) (before after : Bucket) (d : S3Dl) (current : ℤ) (files : Files)
    → Updates k before after d current files (download_update k before after d current files)
unfolding download_update
download_update-Updates k before after d current files =
    update_at-Updates k before after d current files (read_revision before d) refl

-- `DownloadUpdate` from a bucket whose revision does not change during the call: if it returns no
-- error the revision is newer than the current one, and there is one file more, at the path, which was
-- not there before, with the content of the shard's object at that revision; all other files are as they
-- were. With an error all files are as they were.
pub download_update-Fetches :
    (k : Disk) (before after : Bucket) (d : S3Dl) (current : ℤ) (files : Files)
    → IsFresh k
    → read_revision before d ≡ read_revision after d
    → let o = download_update k before after d current files in
      ((o.0.error ≡ none)
        × (current <ℤ o.0.revision)
        × ((b : Bytes) × (after d.bucket (object_key d o.0.revision) ≡ content b)
            × (load o.0.path files ≡ none)
            × ((x : Bytes)
                → load x o.1 ≡ (if bytes_same o.0.path x then some b else load x files))))
      ⊎ ((e : Err) × (o.0.error ≡ some e) × SameFiles files o.1)
download_update-Fetches k before after d current files f same =
    elim (download_update-Updates k before after d current files) [
      | inr (e, q, h) ↦ inr (e, q, λ x. ap (load x) h)
      | inl (r, q, newer, whole) ↦ rw whole (elim (download-Fetches k after d files f) [
        | inr w ↦ inr w
        | inl (b, spelled, body, fine, new, h) ↦
            let revision : some r ≡ some (download k after d files).0.revision =
              sym q ∙ same ∙ spelled in
            let again : r ≡ (download k after d files).0.revision = cc in
            let stored : (x : Bytes)
                → load x (download k after d files).1 ≡ (
                    if bytes_same (download k after d files).0.path x
                    then some b
                    else load x files) =
              λ x. ap (load x) h ∙ load-store (download k after d files).0.path x b files in
            inl (fine, subst (λ x. current <ℤ x) again newer, (b, body, new, stored))
      ])
    ]
