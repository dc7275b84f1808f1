-- ===== src/Faiss.antt =====
-- internal/engine/faiss.go: an index shard that serves one revision while it may stage another.
-- A handle of the C library is a number, its address. `Native` records which handles the library
-- has given out and which were freed; the library, the downloader and the scheduler are arguments.
pub mod Deleting
pub mod Calls
pub mod Ownership
pub mod Revision
pub mod Reload
pub mod Searching
use vectory.Base.{
  ℕ, zero, suc, ◌+◌, ◌≡◌, ◌≢◌, refl, Bool, true, false, List, [], ◌∷◌, ◌++◌, map, Option, none,
  some, Bytes, codes, ℤ, pos, negsuc, pos_part, neg_part, leb_ℤ, same_ℤ, length, ltb, itoa, ◌==◌,
  if◌then◌else◌, not,
}
use vectory.Errors.{
  Err, wrong_input_dimension, empty_input, nil_index, invalid_schedule_type, already_reloading,
  plain, is_up_to_date, Result, ok, err,
}
use vectory.Shard.{
  Shard, IndexSource, IndexManifest, ReloadSetting, ReloadMode, ScheduleType, ScheduleSetting,
  shard_key,
}

-- A float32 is the number of its 32 bits.
abbrev pub Float32 : Type 0
Float32 = ℕ

-- What `Download` and `DownloadUpdate` return.
pub record Fetch : Type 0 where
  pub path : Bytes
  pub revision : ℤ
  pub error : Option Err

-- The interface Downloader.
pub record Downloader : Type 0 where
  pub download : Fetch
  pub download_update : ℤ → Fetch

-- The functions that a FaissIndex is given: newDownloadFn and readIndexFn.
pub record Loader : Type 0 where
  pub new_downloader : IndexSource → Shard → Result Downloader
  pub read_index : Bytes → Result ℕ

-- The methods of a FaissIndexHandle that read.
pub record Library : Type 0 where
  pub dimension : ℕ → ℤ
  pub search : ℕ → List Float32 → ℤ → Result (List Float32 × List ℤ)

pub record Native : Type 0 where
  pub opened : List ℕ
  pub freed : List ℕ

abbrev pub free : ℕ → Native → Native
free h n = record n { freed = h ∷ n.freed }

abbrev pub give_out : ℕ → Native → Native
give_out h n = record n { opened = h ∷ n.opened }

abbrev pub free_all : Option ℕ → Native → Native
free_all none n = n
free_all (some h) n = free h n

-- What a scheduled reload calls: `Reload` of the index itself, or, set by the manager in cluster
-- mode, staging followed by a signal for the named index.
pub data Callback : Type 0 where
  swap : Callback
  stage_and_signal : Bytes → Callback

-- `source` is what Source of the manifest points to: the call that made the index has read it, so that it
-- is not nil.
pub record FaissIndex : Type 0 where
  pub index : Option ℕ
  pub reloading : Bool
  pub shard : Shard
  pub revision : ℤ
  pub staged_index : Option ℕ
  pub staged_revision : ℤ
  pub manifest : IndexManifest
  pub source : IndexSource
  pub callback : Callback
  pub reload_entry : ℕ

-- A call's index afterwards, the library's state afterwards, and the call's result.
abbrev pub Outcome : Type 0 → Type 0
Outcome A = FaissIndex × Native × Result A

-- `Reload` stops at a download error, unless that says that the revision is up to date.
reload_stops : Option Err → Option Err
reload_stops none = none
reload_stops (some e) = if is_up_to_date e then none else some e

reload_swap : FaissIndex → Native → Fetch → Result ℕ → Outcome (Unit {0})
reload_swap f n u (err e) = (f, n, err e)
reload_swap f n u (ok h) = (record f { index = some h; revision = u.revision }, give_out h n, ok tt)

reload_read : Loader → FaissIndex → Native → Fetch → Option Err → Outcome (Unit {0})
unfolding reload_swap
reload_read l f n u (some e) = (f, n, err e)
reload_read l f n u none = reload_swap f n u (l.read_index u.path)

reload_fetch : Loader → FaissIndex → Native → Result Downloader → Outcome (Unit {0})
unfolding reload_read reload_stops
reload_fetch l f n (err e) = (f, n, err e)
reload_fetch l f n (ok d) =
    let u = d.download_update f.revision in reload_read l f n u (reload_stops u.error)

unfoldable pub reload : Loader → FaissIndex → Native → Outcome (Unit {0})
unfolding reload_fetch
reload l f n =
    if f.reloading
    then (f, n, err already_reloading)
    else reload_fetch l f n (l.new_downloader f.source f.shard)

-- A staged index that was never committed is freed when another takes its place.
stage_put : FaissIndex → Native → Fetch → Result ℕ → Outcome ℤ
stage_put f n u (err e) = (f, n, err e)
stage_put f n u (ok h) = (
  record f { staged_index = some h; staged_revision = u.revision },
  free_all f.staged_index (give_out h n),
  ok u.revision,
)

stage_read : Loader → FaissIndex → Native → Fetch → Option Err → Outcome ℤ
unfolding stage_put
stage_read l f n u (some e) = (f, n, err e)
stage_read l f n u none = stage_put f n u (l.read_index u.path)

stage_fetch : Loader → FaissIndex → Native → Result Downloader → Outcome ℤ
unfolding stage_read
stage_fetch l f n (err e) = (f, n, err e)
stage_fetch l f n (ok d) = let u = d.download_update f.revision in stage_read l f n u u.error

unfoldable pub stage_reload : Loader → FaissIndex → Native → Outcome ℤ
unfolding stage_fetch
stage_reload l f n =
    if f.reloading
    then (f, n, err already_reloading)
    else stage_fetch l f n (l.new_downloader f.source f.shard)

abbrev nothing_staged : FaissIndex → Err
nothing_staged f = plain (codes "nothing staged for shard " ++ shard_key f.shard)

abbrev other_revision : FaissIndex → ℤ → Err
other_revision f expected = plain (
    codes "staged revision "
    ++ (itoa f.staged_revision
        ++ (codes " != expected "
            ++ (itoa expected ++ (codes " for shard " ++ shard_key f.shard)))))

commit_swap : FaissIndex → Native → ℤ → Option ℕ → Outcome (Unit {0})
commit_swap f n expected none = (f, n, err (nothing_staged f))
commit_swap f n expected (some h) =
    if same_ℤ f.staged_revision expected
    then (
      record f {
        index = some h;
        revision = f.staged_revision;
        staged_index = none;
        staged_revision = pos 0;
      },
      free_all f.index n,
      ok tt,
    )
    else (f, n, err (other_revision f expected))

unfoldable pub commit_staged : ℤ → FaissIndex → Native → Outcome (Unit {0})
unfolding commit_swap
commit_staged expected f n = commit_swap f n expected f.staged_index

discard : FaissIndex → Native → Option ℕ → FaissIndex × Native
discard f n none = (f, n)
discard f n (some h) = (record f { staged_index = none; staged_revision = pos 0 }, free h n)

unfoldable pub discard_staged : FaissIndex → Native → FaissIndex × Native
unfolding discard
discard_staged f n = discard f n f.staged_index

-- `Delete` calls a method of the serving handle, which panics (`none`) if there is none.
delete_serving : FaissIndex × Native → Option (FaissIndex × Native)
delete_serving (f, n) = elim f.index [ none ↦ none | some h ↦ some (f, free h n) ]

unfoldable pub delete : FaissIndex → Native → Option (FaissIndex × Native)
unfolding delete_serving
delete f n = delete_serving (discard_staged f n)

format_labels : Result (List Float32 × List ℤ) → Result (List Float32 × List Bytes)
format_labels (err e) = err e
format_labels (ok (ds, ls)) = ok (ds, map itoa ls)

search_handle : Library → List Float32 → ℤ → Option ℕ → Result (List Float32 × List Bytes)
unfolding format_labels
search_handle lib x k none = err nil_index
search_handle lib x k (some h) =
    if length x == 0
    then err empty_input
    else if not (leb_ℤ (lib.dimension h) (pos (length x)))
    then err wrong_input_dimension
    else format_labels (lib.search h x k)

unfoldable pub search : Library → FaissIndex → List Float32 → ℤ → Result (List Float32 × List Bytes)
unfolding search_handle
search lib f x k = search_handle lib x k f.index
