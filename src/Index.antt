-- ===== src/Index.antt =====
-- The interface Index of internal/engine/index.go with its two implementations, `NewIndex`, and how
-- newFaissIndex (faiss.go) and newMockIndex (mock.go) load a shard.
pub mod Handles
pub mod Accessors
use vectory.Base.{
  ℕ, false, List, [], ◌∷◌, ◌++◌, Option, none, some, Bytes, codes, bytes_same, ℤ, pos, same_ℤ,
  length, if◌then◌else◌, not, ◌>>=◌,
}
use vectory.Errors.{
  Err, wrong_input_dimension, invalid_index_type, invalid_schedule_type, plain, Result, ok, err,
}
use vectory.Shard.{
  Shard, IndexManifest, IndexSource, IndexType, ReloadSetting, ReloadMode, ScheduleSetting,
  ScheduleType,
}
use vectory.Faiss
use vectory.Faiss.{
  FaissIndex, Native, Loader, Downloader, Fetch, Library, Float32, Callback, swap, stage_and_signal,
  give_out,
}

pub record MockIndex : Type 0 where
  pub shard : Shard
  pub revision : ℤ
  pub manifest : IndexManifest

pub data Index : Type 0 where
  faiss : FaissIndex → Index
  mock : MockIndex → Index

-- The scheduler's `AddFunc`: the entry of a schedule, or why it is refused.
abbrev pub Scheduler : Type 0
Scheduler = Bytes → Result ℕ

-- `newMockIndex`
unfoldable pub new_mock_index : IndexManifest → Shard → Result MockIndex
new_mock_index m shard =
    if bytes_same m.meta.name (codes "failed")
    then err (plain (codes "mock error"))
    else ok (record { shard = shard; revision = pos 123; manifest = m })

schedule_entry : Scheduler → Bytes → ScheduleType → Bytes → Result ℕ
schedule_entry add crontab ScheduleType.cron interval = add crontab
schedule_entry add crontab ScheduleType.interval interval = add (codes "@every " ++ interval)
schedule_entry add crontab ScheduleType.fixed_time interval = add []
schedule_entry add crontab (ScheduleType.other t) interval = err invalid_schedule_type

with_entry : FaissIndex → Result ℕ → Result FaissIndex
with_entry f (err e) = err e
with_entry f (ok i) = ok (record f { reload_entry = i })

reload_by_mode : Scheduler → FaissIndex → ScheduleSetting → ReloadMode → Result FaissIndex
unfolding schedule_entry with_entry
reload_by_mode add f s ReloadMode.passive = ok f
reload_by_mode add f s ReloadMode.active =
    with_entry f (schedule_entry add s.crontab s.kind s.interval)
reload_by_mode add f s (ReloadMode.other m) = ok f

-- `startReload`
unfoldable pub start_reload : Scheduler → FaissIndex → ReloadSetting → Result FaissIndex
unfolding reload_by_mode
start_reload add f s = reload_by_mode add f s.schedule s.mode

start_if_enabled : Scheduler → FaissIndex → Option ReloadSetting → Result FaissIndex
start_if_enabled add f none = ok f
start_if_enabled add f (some s) = if s.enable then start_reload add f s else ok f

-- The index that `newFaissIndex` builds around a handle.
abbrev pub loaded_index : IndexManifest → IndexSource → Shard → ℤ → ℕ → FaissIndex
loaded_index m source shard revision h = record {
  index = some h;
  reloading = false;
  shard = shard;
  revision = revision;
  staged_index = none;
  staged_revision = pos 0;
  manifest = m;
  source = source;
  callback = swap;
  reload_entry = 0;
}

new_read :
    Scheduler
    → IndexManifest
    → IndexSource
    → Shard
    → Native
    → Fetch
    → Result ℕ
    → Native × Result FaissIndex
unfolding start_if_enabled
new_read add m source shard n u (err e) = (n, err e)
new_read add m source shard n u (ok h) =
    (give_out h n, start_if_enabled add (loaded_index m source shard u.revision h) m.reload)

new_fetched :
    Loader
    → Scheduler
    → IndexManifest
    → IndexSource
    → Shard
    → Native
    → Fetch
    → Option Err
    → Native × Result FaissIndex
unfolding new_read
new_fetched l add m source shard n u (some e) = (n, err e)
new_fetched l add m source shard n u none = new_read add m source shard n u (l.read_index u.path)

new_downloaded :
    Loader
    → Scheduler
    → IndexManifest
    → IndexSource
    → Shard
    → Native
    → Result Downloader
    → Native × Result FaissIndex
unfolding new_fetched
new_downloaded l add m source shard n (err e) = (n, err e)
new_downloaded l add m source shard n (ok d) =
    new_fetched l add m source shard n d.download d.download.error

-- NewDownLoader reads the type of the source, also through a nil pointer.
new_from :
    Loader
    → Scheduler
    → IndexManifest
    → Shard
    → Native
    → Option IndexSource
    → Option (Native × Result FaissIndex)
unfolding new_downloaded
new_from l add m shard n none = none
new_from l add m shard n (some source) =
    some (new_downloaded l add m source shard n (l.new_downloader source shard))

-- `newFaissIndex`; `none` is a panic.
unfoldable pub new_faiss_index :
    Loader → Scheduler → IndexManifest → Shard → Native → Option (Native × Result FaissIndex)
unfolding new_from
new_faiss_index l add m shard n = new_from l add m shard n m.source

as_faiss : Native × Result FaissIndex → Native × Result Index
as_faiss (n, err e) = (n, err e)
as_faiss (n, ok f) = (n, ok (faiss f))

as_mock : Native → Result MockIndex → Native × Result Index
as_mock n (err e) = (n, err e)
as_mock n (ok m) = (n, ok (mock m))

new_by_type :
    Loader → Scheduler → IndexManifest → Shard → Native → IndexType → Option (Native × Result Index)
unfolding as_faiss as_mock
new_by_type l add m shard n IndexType.faiss =
    (new_faiss_index l add m shard n >>= λ r. some (as_faiss r))
new_by_type l add m shard n IndexType.mock = some (as_mock n (new_mock_index m shard))
new_by_type l add m shard n _ = some (n, err invalid_index_type)

-- `NewIndex`; `none` is a panic.
unfoldable pub new_index :
    Loader → Scheduler → IndexManifest → Shard → Native → Option (Native × Result Index)
unfolding new_by_type
new_index l add m shard n = new_by_type l add m shard n m.meta.kind

-- The mock answers with three fixed labels at distance 0.5.
unfoldable pub mock_search : MockIndex → List Float32 → ℤ → Result (List Float32 × List Bytes)
mock_search m x k =
    if not (same_ℤ (pos (length x)) m.manifest.meta.input_dim)
    then err wrong_input_dimension
    else ok (0x3f000000 ∷ 0x3f000000 ∷ 0x3f000000 ∷ [], codes "1" ∷ codes "2" ∷ codes "3" ∷ [])

-- `index.Search`
unfoldable pub search : Library → Index → List Float32 → ℤ → Result (List Float32 × List Bytes)
search lib (faiss f) x k = Faiss.search lib f x k
search lib (mock m) x k = mock_search m x k

freed_after : Option (FaissIndex × Native) → Option Native
freed_after none = none
freed_after (some (f, n)) = some n

-- `index.Delete()`: the library's state afterwards, `none` for a panic.
unfoldable pub delete : Index → Native → Option Native
unfolding freed_after
delete (faiss f) n = freed_after (Faiss.delete f n)
delete (mock m) n = some n

-- `setClusterReloadCallback`
unfoldable pub set_cluster_reload_callback : Index → Bytes → Index
set_cluster_reload_callback (faiss f) name = faiss (record f { callback = stage_and_signal name })
set_cluster_reload_callback (mock m) name = mock m
