-- ===== src/ImageCache/Counted.antt =====
-- The counters of one pass over the thumbnails (internal/imagecache/disk.go), and how much it leaves.
use emby_go.Base.{
  ℕ, ◌+◌, ◌*◌, ◌/◌, ◌≤◌, ◌≡◌, refl, sym, inl, inr, Bool, true, ◌&&◌, List, [], ◌∷◌, ltb, leb,
  if◌then◌else◌, length, arith, total, total-nil, total-append, Bool-cases,
}
use emby_go.ImageCache.Disk.{DiskFile, Disk, FileKind, stale_tmp_age, trim_target_percent}
use emby_go.ImageCache.Trim.{
  Tally, no_tally, count_removed, sort_by_mtime, age, is_outdated, remove_file, visit, walk, expire,
  evict, fit, trim,
}
use emby_go.ImageCache.Freed.{total-sort}

abbrev pub file_bytes : DiskFile → ℕ
file_bytes f = f.bytes

module _ (removable : DiskFile → Bool) where
  -- The bytes that a pass counts for a file: of a variant, and of a temporary file that it removes.
  unfoldable pub counted : ℕ → DiskFile → ℕ
  counted now f = elim f.kind [
    | FileKind.temporary ↦ if ltb stale_tmp_age (age now f) && removable f then f.bytes else 0
    | FileKind.variant ↦ f.bytes
    | FileKind.other ↦ 0
  ]

  -- The counters of a tally agree with its list of removed files.
  abbrev pub Exact : Tally → Type 0
  Exact t = (t.removed ≡ length t.gone) × (t.freed ≡ total file_bytes t.gone)

  remove-Exact : (f : DiskFile) (t : Tally) → Exact t → Exact (remove_file removable f t)
  unfolding remove_file count_removed total
  remove-Exact f t h = ground arith

  visit-Exact :
      (now : ℕ) (f : DiskFile) (s : List DiskFile × Tally)
      → Exact s.1
      → Exact (visit removable now f s).1
  unfolding visit count_removed total
  visit-Exact now f (items, t) h = ground arith

  walk-Exact :
      (now : ℕ) (l : List DiskFile) (s : List DiskFile × Tally)
      → Exact s.1
      → Exact (walk removable now l s).1
  unfolding walk
  walk-Exact now [] s h = h
  walk-Exact now (f ∷ l) s h = walk-Exact now l (visit removable now f s) (visit-Exact now f s h)

  expire-Exact :
      (now ttl : ℕ) (l : List DiskFile) (t : Tally)
      → Exact t
      → Exact (expire removable now ttl l t).1
  unfolding expire
  expire-Exact now ttl [] t h = h
  expire-Exact now ttl (f ∷ l) t h =
      let a = expire-Exact now ttl l (remove_file removable f t) (remove-Exact f t h) in
      let b = expire-Exact now ttl l t h in
      elim (Bool-cases (is_outdated now ttl f)) [ inl e ↦ rw e a | inr e ↦ rw e b ]

  evict-Exact :
      (target : ℕ) (l : List DiskFile) (t : Tally) → Exact t → Exact (evict removable target l t)
  unfolding evict
  evict-Exact target [] t h = h
  evict-Exact target (f ∷ l) t h =
      let a = evict-Exact target l (remove_file removable f t) (remove-Exact f t h) in
      elim (Bool-cases (leb t.total target)) [ inl e ↦ rw e h | inr e ↦ rw e a ]

  visit-sum :
      (now : ℕ) (f : DiskFile) (s : List DiskFile × Tally)
      → (visit removable now f s).1.total + (visit removable now f s).1.freed
        ≡ counted now f + (s.1.total + s.1.freed)
  unfolding visit count_removed counted
  visit-sum now f (items, t) = ground arith

  walk-sum :
      (now : ℕ) (l : List DiskFile) (s : List DiskFile × Tally)
      → (walk removable now l s).1.total + (walk removable now l s).1.freed
        ≡ total (counted now) l + (s.1.total + s.1.freed)
  unfolding walk total
  walk-sum now [] s = omega arith
  walk-sum now (f ∷ l) s =
      omega (arith, walk-sum now l (visit removable now f s), visit-sum now f s)

  visit-listed :
      (now : ℕ) (f : DiskFile) (s : List DiskFile × Tally)
      → total file_bytes s.0 ≡ s.1.total
      → total file_bytes (visit removable now f s).0 ≡ (visit removable now f s).1.total
  unfolding visit count_removed total
  visit-listed now f (items, t) h = ground (arith, total-append file_bytes items (f ∷ []))

  pub walk-listed :
      (now : ℕ) (l : List DiskFile) (s : List DiskFile × Tally)
      → total file_bytes s.0 ≡ s.1.total
      → total file_bytes (walk removable now l s).0 ≡ (walk removable now l s).1.total
  unfolding walk
  walk-listed now [] s h = h
  walk-listed now (f ∷ l) s h = walk-listed now l (visit removable now f s) (visit-listed now f s h)

  remove-sum :
      (f : DiskFile) (t : Tally)
      → f.bytes ≤ t.total
      → ((remove_file removable f t).total + (remove_file removable f t).freed ≡ t.total + t.freed)
        × (t.total ≤ (remove_file removable f t).total + f.bytes)
  unfolding remove_file count_removed
  remove-sum f t h = ground arith

  -- What is still in the listing stays within the total, with `x` bytes that were passed over.
  expire-sum :
      (now ttl x : ℕ) (l : List DiskFile) (t : Tally)
      → total file_bytes l + x ≤ t.total
      → ((expire removable now ttl l t).1.total + (expire removable now ttl l t).1.freed
          ≡ t.total + t.freed)
        × (total file_bytes (expire removable now ttl l t).0 + x
            ≤ (expire removable now ttl l t).1.total)
  unfolding expire total
  expire-sum now ttl x [] t h = (refl, h)
  expire-sum now ttl x (f ∷ l) t h =
      let r = remove-sum f t (omega arith) in
      let a = expire-sum now ttl x l (remove_file removable f t) (omega (arith, r)) in
      let b = expire-sum now ttl (f.bytes + x) l t (omega arith) in ground (arith, a, b, r)

  evict-sum :
      (target : ℕ) (l : List DiskFile) (t : Tally)
      → total file_bytes l ≤ t.total
      → (evict removable target l t).total + (evict removable target l t).freed ≡ t.total + t.freed
  unfolding evict total
  evict-sum target [] t h = refl
  evict-sum target (f ∷ l) t h =
      let r = remove-sum f t (omega arith) in
      let a = evict-sum target l (remove_file removable f t) (omega (arith, r)) in
      ground (arith, a, r)

  fit-Exact :
      (limit : ℕ) (kept : List DiskFile) (t : Tally) → Exact t → Exact (fit removable limit kept t)
  unfolding fit
  fit-Exact limit kept t h =
      ground (arith, evict-Exact (limit * trim_target_percent / 100) (sort_by_mtime kept) t h)

  fit-sum :
      (limit : ℕ) (kept : List DiskFile) (t : Tally)
      → total file_bytes kept ≤ t.total
      → (fit removable limit kept t).total + (fit removable limit kept t).freed ≡ t.total + t.freed
  unfolding fit
  fit-sum limit kept t h =
      let low = total-sort file_bytes kept in
      ground (
        arith,
        evict-sum (limit * trim_target_percent / 100) (sort_by_mtime kept) t (omega (arith, low)),
      )

  -- The answer of a pass over an enabled cache is exact: as many files and as many bytes as it removed;
  -- and what it takes to be left is what the listing had, less what it freed.
  pub trim_counts :
      (now done limit : ℕ) (files : List DiskFile) (d : Disk)
      → d.enabled ≡ true
      → Exact (trim removable now done limit files d).1
        × ((trim removable now done limit files d).1.total
              + (trim removable now done limit files d).1.freed
            ≡ total (counted now) files)
  unfolding trim
  trim_counts now done limit files d h =
      let s = walk removable now files ([], no_tally) in
      let k = expire removable now d.ttl s.0 s.1 in
      let max_bytes = if ltb 0 limit then limit else d.max_bytes in
      let none_yet = total-nil file_bytes in
      let listed = walk-listed now files ([], no_tally) none_yet in
      let (sum, low) = expire-sum now d.ttl 0 s.0 s.1 (omega (arith, listed)) in
      let exact = fit-Exact max_bytes k.0 k.1 (
        expire-Exact now d.ttl s.0 s.1
          (walk-Exact now files ([], no_tally) (refl, sym none_yet))) in
      simp h (
        exact,
        omega (
          arith,
          fit-sum max_bytes k.0 k.1 (omega (arith, low)),
          sum,
          walk-sum now files ([], no_tally),
        ),
      )
