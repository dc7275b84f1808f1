-- ===== src/Download/Local.antt =====
-- What the local downloader fetches.
use vectory.Base.{
  ◌≡◌, sym, ap, ◌∙◌, ◌⊎◌, inl, inr, refl, true, false, [], none, some, Bytes, ℤ, ◌<ℤ◌, ◌≤ℤ◌, leb_ℤ,
  atoi, arith, Bool-cases,
}
use vectory.Errors.{Err, Result, ok, err, get_revision_failed, index_revision_up_to_date}
use vectory.Shard.{Shard, IndexSource}
use vectory.Faiss.{Fetch}
use vectory.Download.{
  FileSystem, latest_revision_path, shard_file_path, read_revision, revision_of, parse_revision,
  download, find_shard, download_update, update_after,
}

leb_ℤ-le : (a b : ℤ) → leb_ℤ a b ≡ true → a ≤ℤ b
leb_ℤ-le a b h = ground arith

leb_ℤ-lt : (a b : ℤ) → leb_ℤ a b ≡ false → b <ℤ a
leb_ℤ-lt a b h = ground arith

-- The revision file holds the numeral of a revision.
abbrev pub Spells : FileSystem → IndexSource → ℤ → Type 0
Spells fs s r =
    (text : Bytes) × (fs.read_file (latest_revision_path s) ≡ ok text) × (atoi text ≡ some r)

revision_of-ok :
    (b : Result Bytes) (r : ℤ)
    → revision_of b ≡ ok r
    → (text : Bytes) × (b ≡ ok text) × (atoi text ≡ some r)
unfolding revision_of parse_revision
revision_of-ok (err e) r h = absurd (cc)
revision_of-ok (ok b) r h = (b, refl, ground arith)

read_revision-Spells :
    (fs : FileSystem) (s : IndexSource) (r : ℤ) → read_revision fs s ≡ ok r → Spells fs s r
unfolding read_revision
read_revision-Spells fs s r h = revision_of-ok (fs.read_file (latest_revision_path s)) r h

-- A file of a shard that exists.
abbrev pub IsShardFile : FileSystem → IndexSource → Shard → Fetch → Type 0
IsShardFile fs s shard u =
    Spells fs s u.revision
    × (u.path ≡ shard_file_path s u.revision shard)
    × (fs.exists u.path ≡ true)

find_shard-IsShardFile :
    (fs : FileSystem) (s : IndexSource) (shard : Shard) (r : Result ℤ)
    → r ≡ read_revision fs s
    → (find_shard fs s shard r).error ≡ none
    → IsShardFile fs s shard (find_shard fs s shard r)
unfolding find_shard
find_shard-IsShardFile fs s shard (err e) q h = absurd (cc)
find_shard-IsShardFile fs s shard (ok r) q h =
    elim (Bool-cases (fs.exists (shard_file_path s r shard))) [
      | inl e ↦ rw e (read_revision-Spells fs s r (sym q), refl, e)
      | inr e ↦ absurd (missing e)
    ]
  where
    missing : fs.exists (shard_file_path s r shard) ≡ false → ⊥
    missing e = ground arith

-- A download without an error is of the revision that the revision file spells, from the file of
-- the shard at that revision, which exists.
pub download-IsShardFile :
    (fs : FileSystem) (s : IndexSource) (shard : Shard)
    → (download fs s shard).error ≡ none
    → IsShardFile fs s shard (download fs s shard)
unfolding download
download-IsShardFile fs s shard h = find_shard-IsShardFile fs s shard (read_revision fs s) refl h

download-revision :
    (fs : FileSystem) (s : IndexSource) (shard : Shard) (r : ℤ)
    → read_revision fs s ≡ ok r
    → (download fs s shard).error ≡ none
    → (download fs s shard).revision ≡ r
unfolding download find_shard
download-revision fs s shard r q h = ground arith

-- What an update returns when the first read of the revision gave `read`.
abbrev pub Updates : FileSystem → IndexSource → Shard → ℤ → Result ℤ → Fetch → Type 0
Updates after s shard current read u =
    ((e : Err) × (read ≡ err e) × (u.error ≡ some get_revision_failed))
    ⊎ ((r : ℤ) × (read ≡ ok r)
        × (((r ≤ℤ current)
              × (u.error ≡ some index_revision_up_to_date)
              × (u.revision ≡ r)
              × (u.path ≡ []))
            ⊎ ((current <ℤ r) × (u ≡ download after s shard))))

update_after-Updates :
    (after : FileSystem) (s : IndexSource) (shard : Shard) (current : ℤ) (read : Result ℤ)
    → Updates after s shard current read (update_after after s shard current read)
unfolding update_after
update_after-Updates after s shard current (err e) = inl (e, refl, refl)
update_after-Updates after s shard current (ok r) = elim (Bool-cases (leb_ℤ r current)) [
  | inl h ↦ rw h (inr (r, refl, inl (leb_ℤ-le r current h, refl, refl, refl)))
  | inr h ↦ rw h (inr (r, refl, inr (leb_ℤ-lt r current h, refl)))
]

-- The cases of an update, by the first read of the revision. If it fails, or is of no newer
-- revision, the call says so and fetches nothing; otherwise the result is that of a download in the
-- second file system.
pub download_update-Updates :
    (before after : FileSystem) (s : IndexSource) (shard : Shard) (current : ℤ)
    → Updates after s shard current
        (read_revision before s)
        (download_update before after s shard current)
unfolding download_update
download_update-Updates before after s shard current =
    update_after-Updates after s shard current (read_revision before s)

-- With a local source whose revision file does not change during a call, an update that succeeds
-- is newer than the current revision, and fetches the file of the shard at its revision.
pub download_update-newer :
    (before after : FileSystem) (s : IndexSource) (shard : Shard) (current : ℤ)
    → read_revision before s ≡ read_revision after s
    → (download_update before after s shard current).error ≡ none
    → (current <ℤ (download_update before after s shard current).revision)
      × IsShardFile after s shard (download_update before after s shard current)
download_update-newer before after s shard current same h =
    elim (download_update-Updates before after s shard current) [
      | inl (e, _, failed) ↦ absurd (cc)
      | inr (r, read, inl (_, failed, _, _)) ↦ absurd (cc)
      | inr (r, read, inr (newer, fetched)) ↦
          let fine = ap (λ (u : Fetch). u.error) (sym fetched) ∙ h in
          rw fetched (
            rw (download-revision after s shard r (sym same ∙ read) fine) newer,
            download-IsShardFile after s shard fine,
          )
    ]

-- If it does change, the revision of the second read is not compared: an update that found a newer
-- revision first fetches whatever revision the file spells later, also an old one.
pub download_update-unchecked :
    (before after : FileSystem) (s : IndexSource) (shard : Shard) (current r later : ℤ)
    → read_revision before s ≡ ok r
    → current <ℤ r
    → read_revision after s ≡ ok later
    → after.exists (shard_file_path s later shard) ≡ true
    → (download_update before after s shard current).error ≡ none
      × ((download_update before after s shard current).revision ≡ later)
unfolding download_update update_after download find_shard
download_update-unchecked before after s shard current r later a lt b there = ground arith
