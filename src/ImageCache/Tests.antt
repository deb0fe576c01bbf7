-- ===== src/ImageCache/Tests.antt =====
-- The thumbnail cache of internal/imagecache/disk.go at a concrete directory.
use emby_go.Base.{
  ◌+◌, ◌≤◌, ◌≡◌, refl, Bool, true, false, List, [], ◌∷◌, ltb, if◌then◌else◌, arith, total,
}
use emby_go.ImageCache.Disk.{DiskFile, Disk, FileKind}
use emby_go.ImageCache.Trim.{
  trim, walk, expire, evict, fit, is_outdated, sort_by_mtime, insert_by_mtime, count_removed,
}
use emby_go.ImageCache.Freed.{of_those, gone_within}
use emby_go.ImageCache.Counted.{Exact, counted, file_bytes, trim_counts}
use emby_go.ImageCache.Fits.{trim_fits}
use emby_go.ImageCache.Token.{Deed, IsSingle, deeds, deeds-IsSingle}

abbrev three_files : List DiskFile
three_files =
    record { path = "a"; kind = FileKind.variant; bytes = 60; mtime = 30 }
    ∷ record { path = "b"; kind = FileKind.other; bytes = 7; mtime = 5 }
    ∷ record { path = "c"; kind = FileKind.variant; bytes = 50; mtime = 20 }
    ∷ []

abbrev small_disk : Disk
small_disk = record { enabled = true; max_bytes = 100; ttl = 0; last_trim = 0; trimming = false }

abbrev every_removal : DiskFile → Bool
every_removal f = true

-- The older variant goes, the newer stays.
older_gone : (trim every_removal 40 41 100 three_files small_disk).1.freed ≡ 50
unfolding trim walk expire evict fit is_outdated sort_by_mtime insert_by_mtime count_removed
older_gone = refl

gone_within_example :
    total file_bytes (trim every_removal 40 41 100 three_files small_disk).1.gone
    ≤ total (of_those file_bytes 40) three_files
gone_within_example = gone_within every_removal file_bytes 40 41 100 three_files small_disk

trim_counts_example :
    Exact every_removal (trim every_removal 40 41 100 three_files small_disk).1
    × ((trim every_removal 40 41 100 three_files small_disk).1.total
          + (trim every_removal 40 41 100 three_files small_disk).1.freed
        ≡ total (counted every_removal 40) three_files)
trim_counts_example = trim_counts every_removal 40 41 100 three_files small_disk refl

trim_fits_example :
    (trim every_removal 40 41 100 three_files small_disk).1.total
    ≤ (if ltb 0 100 then 100 else small_disk.max_bytes)
trim_fits_example =
    trim_fits every_removal (λ f. refl) 40 41 100 three_files small_disk refl (omega arith)

deeds-IsSingle_example : IsSingle every_removal three_files (
    deeds every_removal three_files
      (Deed.ask ∷ Deed.ask_maybe 10 ∷ Deed.finish_pass 20 21 ∷ [])
      (record { disk = small_disk; passes = 0 }))
deeds-IsSingle_example =
    deeds-IsSingle every_removal three_files
      (Deed.ask ∷ Deed.ask_maybe 10 ∷ Deed.finish_pass 20 21 ∷ [])
      (record { disk = small_disk; passes = 0 }) (omega arith, refl)
