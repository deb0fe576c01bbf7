-- ===== src/ImageCache/Fits.antt =====
-- The thumbnails fit in their limit after a pass (internal/imagecache/disk.go).
use emby_go.Base.{
  ℕ, ◌-◌, ◌+◌, ◌*◌, ◌/◌, ◌≤◌, ◌≡◌, Bool, true, List, [], ◌∷◌, ltb, if◌then◌else◌, arith, total,
  total-nil,
}
use emby_go.ImageCache.Disk.{DiskFile, Disk, trim_target_percent}
use emby_go.ImageCache.Trim.{
  Tally, no_tally, count_removed, sort_by_mtime, remove_file, walk, expire, evict, fit, trim,
}
use emby_go.ImageCache.Freed.{total-sort}
use emby_go.ImageCache.Counted.{file_bytes, walk-listed}

module _ (removable : DiskFile → Bool) (all : (f : DiskFile) → removable f ≡ true) where
  remove-total : (f : DiskFile) (t : Tally) → (remove_file removable f t).total ≡ t.total - f.bytes
  unfolding remove_file count_removed
  remove-total f t = ground (arith, all f)

  expire-listed :
      (now ttl x : ℕ) (l : List DiskFile) (t : Tally)
      → total file_bytes l + x ≡ t.total
      → total file_bytes (expire removable now ttl l t).0 + x
        ≡ (expire removable now ttl l t).1.total
  unfolding expire total
  expire-listed now ttl x [] t h = h
  expire-listed now ttl x (f ∷ l) t h =
      let r = remove-total f t in
      let a = expire-listed now ttl x l (remove_file removable f t) (omega (arith, r)) in
      let b = expire-listed now ttl (f.bytes + x) l t (omega arith) in ground (arith, a, b)

  evict-fits :
      (target : ℕ) (l : List DiskFile) (t : Tally)
      → t.total ≤ total file_bytes l
      → (evict removable target l t).total ≤ target
  unfolding evict total
  evict-fits target [] t h = omega arith
  evict-fits target (f ∷ l) t h =
      let r = remove-total f t in
      let a = evict-fits target l (remove_file removable f t) (omega (arith, r)) in
      ground (arith, a)

  fit-fits :
      (limit : ℕ) (kept : List DiskFile) (t : Tally)
      → 1 ≤ limit
      → total file_bytes kept ≡ t.total
      → (fit removable limit kept t).total ≤ limit
  unfolding fit
  fit-fits limit kept t h e =
      let low = total-sort file_bytes kept in
      let a =
        evict-fits (limit * trim_target_percent / 100) (sort_by_mtime kept) t
          (omega (arith, low)) in
      ground (arith, a)

  -- Where every removal succeeds, a pass over an enabled cache leaves at most the limit: the one that
  -- it reads after the walk, or the one that it read before where that is 0.
  pub trim_fits :
      (now done limit : ℕ) (files : List DiskFile) (d : Disk)
      → d.enabled ≡ true
      → 1 ≤ (if ltb 0 limit then limit else d.max_bytes)
      → (trim removable now done limit files d).1.total
        ≤ (if ltb 0 limit then limit else d.max_bytes)
  unfolding trim
  trim_fits now done limit files d h g =
      let s = walk removable now files ([], no_tally) in
      let k = expire removable now d.ttl s.0 s.1 in
      let listed = walk-listed removable now files ([], no_tally) (total-nil file_bytes) in
      let kept = expire-listed now d.ttl 0 s.0 s.1 (omega (arith, listed)) in
      simp h (fit-fits (if ltb 0 limit then limit else d.max_bytes) k.0 k.1 g (omega (arith, kept)))
