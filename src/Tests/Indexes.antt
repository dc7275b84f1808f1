-- ===== src/Tests/Indexes.antt =====
-- One shard through reloads, commits and searches, and the folder it is fetched from.
use vectory.Base.{
  subst, Lacks, ◌≡◌, ◌≢◌, refl, inl, true, List, [], ◌∷◌, none, some, codes, ℤ, pos, ◌<ℤ◌, ◌≤ℤ◌,
  arith, load, itoa, atoi,
}
use vectory.Errors.{ok}
use vectory.Faiss
use vectory.Faiss.{
  FaissIndex, Native, Loader, stage_reload, commit_staged, reload, delete, search, give_out,
  free_all,
}
use vectory.Index.{faiss}
use vectory.Index.Accessors.{
  Reader, metric_name, check_available, vector_count, metric_type, input_dim, delete-unreadable,
}
use vectory.Faiss.Calls.{Call, stage, commit, run, step}
use vectory.Faiss.Ownership.{IsOwned, IsFresh, count, run-not_freed}
use vectory.Faiss.Revision.{IsNewer, IsUpdating, run-revision_grows}
use vectory.Faiss.Reload.{reload-leaks}
use vectory.Download.{FileSystem, read_revision, download_update, download}
use vectory.Tests.Data.{
  next_loader, next_downloader, next_fetch, finds_four, serving, staged, one_open, two_open,
  folder_source, first_shard,
}

IsFresh-seven : IsFresh next_loader one_open
unfolding count
IsFresh-seven path h e = let seven : 7 ≡ h = cc in ground arith

serving-IsOwned : IsOwned serving one_open
unfolding count
serving-IsOwned = record { once = λ h. ground arith; balanced = λ h. ground arith }

staged-IsOwned : IsOwned staged two_open
unfolding count
staged-IsOwned = record { once = λ h. ground arith; balanced = λ h. ground arith }

next_downloader_grows : (n : ℤ) → n <ℤ (next_fetch n).revision
next_downloader_grows (pos n) = omega arith
next_downloader_grows (ℤ.negsuc n) = omega arith

next_loader-IsUpdating : IsUpdating next_loader
next_loader-IsUpdating source shard d current h e =
    let same : next_downloader ≡ d = cc in
    subst (λ (x : Faiss.Downloader). current <ℤ (x.download_update current).revision) same
      (next_downloader_grows current)

abbrev two_calls : List Call
two_calls = stage next_loader ∷ commit (pos 2) ∷ []

after_two : (run two_calls (serving, one_open)).0.index ≡ some 7
unfolding run step stage_reload commit_staged
after_two = refl

run-not_freed_example :
    (count 7 (run two_calls (serving, one_open)).1.freed ≡ 0)
    × ((run two_calls (serving, one_open)).0.staged_index ≢ some 7)
run-not_freed_example =
    run-not_freed two_calls (serving, one_open) 7 (IsFresh-seven, tt) serving-IsOwned after_two

run-revision_grows_example :
    IsNewer (run two_calls (serving, one_open)).0
    × (pos 1 ≤ℤ (run two_calls (serving, one_open)).0.revision)
run-revision_grows_example =
    run-revision_grows two_calls (serving, one_open) (next_loader-IsUpdating, tt) (inl refl)

deleted_staged :
    delete staged two_open
    ≡ some (
      record staged { staged_index = none; staged_revision = pos 0 },
      record two_open { freed = 3 ∷ 7 ∷ [] },
    )
unfolding delete Faiss.discard_staged
deleted_staged = refl

abbrev counts_none : Reader
counts_none = record { d = λ h. pos 2; n_total = λ h. pos 0; metric_type = λ h. pos 1 }

metric_of_one : metric_name (counts_none.metric_type 7) ≡ codes "L2"
unfolding metric_name load
metric_of_one = refl

abbrev after_delete : FaissIndex
after_delete = record staged { staged_index = none; staged_revision = pos 0 }

abbrev both_freed : Native
both_freed = record two_open { freed = 3 ∷ 7 ∷ [] }

delete-unreadable_example :
    (check_available (faiss after_delete) ≡ none)
    × (vector_count counts_none both_freed (faiss after_delete) ≡ none)
    × (metric_type counts_none both_freed (faiss after_delete) ≡ none)
    × (input_dim counts_none both_freed (faiss after_delete) ≡ none)
delete-unreadable_example =
    delete-unreadable counts_none staged after_delete two_open both_freed deleted_staged

reload-leaks_example :
    let (g, k, r) = reload next_loader serving one_open in
    (r ≡ ok tt)
    × (g.index ≡ some 7)
    × (g.revision ≡ pos 2)
    × (g.staged_index ≡ none)
    × (count 3 k.freed ≡ 0)
    × (¬ IsOwned g k)
reload-leaks_example =
    reload-leaks next_loader serving one_open next_downloader 3 7 refl refl refl refl refl
      IsFresh-seven serving-IsOwned

found_four : search finds_four serving (1 ∷ 2 ∷ []) (pos 1) ≡ ok (0x3f000000 ∷ [], codes "4" ∷ [])
unfolding search itoa
found_four = refl

-- A folder whose revision file says 5, or 0, and which has every file.
abbrev at_five : FileSystem
at_five = record { read_file = λ p. ok (codes "5"); exists = λ p. true }

abbrev at_zero : FileSystem
at_zero = record { read_file = λ p. ok (codes "0"); exists = λ p. true }

five_read : read_revision at_five folder_source ≡ ok (pos 5)
unfolding read_revision atoi
five_read = refl

zero_read : read_revision at_zero folder_source ≡ ok (pos 0)
unfolding read_revision atoi
zero_read = refl

updated : (download_update at_five at_five folder_source first_shard (pos 1)).error ≡ none
unfolding download_update download read_revision atoi
updated = refl

no_slash : Lacks b'/' (codes "bucket")
no_slash = (
  λ e. absurd (cc),
  (
    λ e. absurd (cc),
    (λ e. absurd (cc), (λ e. absurd (cc), (λ e. absurd (cc), (λ e. absurd (cc), tt)))),
  ),
)
