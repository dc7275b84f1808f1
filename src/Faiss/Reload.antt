-- ===== src/Faiss/Reload.antt =====
-- `Reload`, the immediate swap of single mode.
use vectory.Base.{ℕ, ◌≡◌, refl, false, none, some, arith}
use vectory.Errors.{Err, ok, err, index_revision_up_to_date}
use vectory.Faiss.{
  FaissIndex, Native, Loader, Downloader, reload, reload_fetch, reload_read, reload_swap,
  reload_stops,
}
use vectory.Faiss.Ownership.{IsOwned, IsFresh, count}

-- A reload that succeeds serves the downloaded revision and leaves the staged one alone, but it
-- drops the handle that served before without freeing it: ownership is lost.
pub reload-leaks :
    (l : Loader) (f : FaissIndex) (n : Native) (d : Downloader) (old new : ℕ)
    → f.reloading ≡ false
    → l.new_downloader f.source f.shard ≡ ok d
    → (d.download_update f.revision).error ≡ none
    → l.read_index (d.download_update f.revision).path ≡ ok new
    → f.index ≡ some old
    → IsFresh l n
    → IsOwned f n
    → let (g, k, r) = reload l f n in
      (r ≡ ok tt)
      × (g.index ≡ some new)
      × (g.revision ≡ (d.download_update f.revision).revision)
      × (g.staged_index ≡ f.staged_index)
      × (count old k.freed ≡ 0)
      × (¬ IsOwned g k)
unfolding reload reload_fetch reload_read reload_swap reload_stops count
reload-leaks l f n d old new idle made fine read serving fresh v =
    simp (idle, made, fine, read)
      (
        refl,
        refl,
        refl,
        refl,
        ground (arith, v.once old, v.balanced old),
        λ w. ground (arith, v.once old, v.balanced old, w.balanced old, fresh _ new read),
      )

-- When nothing is new the reload reads the path that came with that answer all the same, and it
-- reports what that read reports.
pub reload_up_to_date :
    (l : Loader) (f : FaissIndex) (n : Native) (d : Downloader) (e : Err)
    → f.reloading ≡ false
    → l.new_downloader f.source f.shard ≡ ok d
    → (d.download_update f.revision).error ≡ some index_revision_up_to_date
    → l.read_index (d.download_update f.revision).path ≡ err e
    → reload l f n ≡ (f, n, err e)
unfolding reload reload_fetch reload_read reload_swap reload_stops
reload_up_to_date l f n d e idle made fine read = simp (idle, made, fine, read)
