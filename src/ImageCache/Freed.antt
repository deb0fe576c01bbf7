-- ===== src/ImageCache/Freed.antt =====
-- What one pass over the thumbnails (internal/imagecache/disk.go) removes, counts and leaves.
use emby_go.Base.{
  ℕ, ◌+◌, ◌*◌, ◌/◌, ◌≤◌, ◌≡◌, refl, Bool, true, false, List, [], ◌∷◌, ltb, if◌then◌else◌, arith,
  total, total-nil, total-append,
}
use emby_go.ImageCache.Disk.{DiskFile, Disk, FileKind, stale_tmp_age, trim_target_percent}
use emby_go.ImageCache.Trim.{
  Tally, no_tally, count_removed, insert_by_mtime, sort_by_mtime, age, remove_file, visit, walk,
  expire, evict, fit, trim,
}

-- What the rules let a pass remove: an old temporary file, and a variant.
unfoldable pub may_go : ℕ → DiskFile → Bool
may_go now f = elim f.kind [
  | FileKind.temporary ↦ ltb stale_tmp_age (age now f)
  | FileKind.variant ↦ true
  | FileKind.other ↦ false
]

-- A measure of a file that counts if the file may go.
unfoldable pub of_those : (DiskFile → ℕ) → ℕ → DiskFile → ℕ
unfolding may_go
of_those w now f = if may_go now f then w f else 0

total-insert :
    (w : DiskFile → ℕ) (f : DiskFile) (l : List DiskFile)
    → total w (insert_by_mtime f l) ≡ w f + total w l
unfolding insert_by_mtime total
total-insert w f [] = refl
total-insert w f (g ∷ l) = ground (arith, total-insert w f l)

pub total-sort : (w : DiskFile → ℕ) (l : List DiskFile) → total w (sort_by_mtime l) ≡ total w l
unfolding sort_by_mtime total
total-sort w [] = refl
total-sort w (f ∷ l) = omega (arith, total-insert w f (sort_by_mtime l), total-sort w l)

module _ (removable : DiskFile → Bool) where
  -- Every measure of what is gone stays within the measure of what may go.
  module _ (w : DiskFile → ℕ) where
    visit-gone :
        (now : ℕ) (f : DiskFile) (s : List DiskFile × Tally)
        → total w (visit removable now f s).0 + total w (visit removable now f s).1.gone
          ≤ of_those w now f + (total w s.0 + total w s.1.gone)
    unfolding visit of_those may_go count_removed total
    visit-gone now f (items, t) = ground (arith, total-append w items (f ∷ []))

    walk-gone :
        (now : ℕ) (l : List DiskFile) (s : List DiskFile × Tally)
        → total w (walk removable now l s).0 + total w (walk removable now l s).1.gone
          ≤ total (of_those w now) l + (total w s.0 + total w s.1.gone)
    unfolding walk total
    walk-gone now [] s = omega arith
    walk-gone now (f ∷ l) s =
        omega (arith, walk-gone now l (visit removable now f s), visit-gone now f s)

    remove-gone :
        (f : DiskFile) (t : Tally) → total w (remove_file removable f t).gone ≤ w f + total w t.gone
    unfolding remove_file count_removed total
    remove-gone f t = ground arith

    expire-gone :
        (now ttl : ℕ) (l : List DiskFile) (t : Tally)
        → total w (expire removable now ttl l t).0 + total w (expire removable now ttl l t).1.gone
          ≤ total w l + total w t.gone
    unfolding expire total
    expire-gone now ttl [] t = omega arith
    expire-gone now ttl (f ∷ l) t = ground (
      arith,
      expire-gone now ttl l (remove_file removable f t),
      expire-gone now ttl l t,
      remove-gone f t,
    )

    evict-gone :
        (target : ℕ) (l : List DiskFile) (t : Tally)
        → total w (evict removable target l t).gone ≤ total w l + total w t.gone
    unfolding evict total
    evict-gone target [] t = omega arith
    evict-gone target (f ∷ l) t =
        ground (arith, evict-gone target l (remove_file removable f t), remove-gone f t)

    fit-gone :
        (limit : ℕ) (kept : List DiskFile) (t : Tally)
        → total w (fit removable limit kept t).gone ≤ total w kept + total w t.gone
    unfolding fit
    fit-gone limit kept t = ground (
      arith,
      evict-gone (limit * trim_target_percent / 100) (sort_by_mtime kept) t,
      total-sort w kept,
    )

    -- By every measure of files, what a pass removes counts at most as much as the old temporary files
    -- and the variants of the listing: it removes nothing else, and nothing twice.
    pub gone_within :
        (now done limit : ℕ) (files : List DiskFile) (d : Disk)
        → total w (trim removable now done limit files d).1.gone ≤ total (of_those w now) files
    unfolding trim
    gone_within now done limit files d =
        let s = walk removable now files ([], no_tally) in
        let k = expire removable now d.ttl s.0 s.1 in
        let max_bytes = if ltb 0 limit then limit else d.max_bytes in
        ground (
          arith,
          fit-gone max_bytes k.0 k.1,
          expire-gone now d.ttl s.0 s.1,
          walk-gone now files ([], no_tally),
          total-nil w,
        )
