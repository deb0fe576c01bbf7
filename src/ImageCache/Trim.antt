-- ===== src/ImageCache/Trim.antt =====
-- `Trim` of internal/imagecache/disk.go: one pass over the listing of the directory. A file whose
-- information cannot be read is not in the listing.
use emby_go.Base.{ℕ, ◌-◌, ◌+◌, ◌*◌, ◌/◌, Bool, ◌&&◌, List, [], ◌∷◌, ◌++◌, ltb, leb, if◌then◌else◌}
use emby_go.ImageCache.Disk.{DiskFile, Disk, FileKind, stale_tmp_age, trim_target_percent}

-- The counters of a pass, with the files that it removed.
pub record Tally : Type 0 where
  pub removed : ℕ
  pub freed : ℕ
  pub total : ℕ
  pub gone : List DiskFile

abbrev pub no_tally : Tally
no_tally = record { removed = 0; freed = 0; total = 0; gone = [] }

-- The removal of a file, with what it takes off the total.
unfoldable pub count_removed : DiskFile → ℕ → Tally → Tally
count_removed f counted t = record {
  removed = t.removed + 1;
  freed = t.freed + f.bytes;
  total = t.total - counted;
  gone = f ∷ t.gone;
}

-- The variants in the order of their last change (`slices.SortFunc`).
unfoldable pub insert_by_mtime : DiskFile → List DiskFile → List DiskFile
insert_by_mtime f [] = f ∷ []
insert_by_mtime f (g ∷ l) =
    let rest = insert_by_mtime f l in if leb f.mtime g.mtime then f ∷ g ∷ l else g ∷ rest

unfoldable pub sort_by_mtime : List DiskFile → List DiskFile
sort_by_mtime [] = []
sort_by_mtime (f ∷ l) = insert_by_mtime f (sort_by_mtime l)

abbrev pub age : ℕ → DiskFile → ℕ
age now f = now - f.mtime

unfoldable pub is_outdated : ℕ → ℕ → DiskFile → Bool
is_outdated now ttl f = ltb 0 ttl && ltb ttl (age now f)

-- Whether `os.Remove` of a file succeeds.
module _ (removable : DiskFile → Bool) where
  unfoldable pub remove_file : DiskFile → Tally → Tally
  remove_file f t = if removable f then count_removed f f.bytes t else t

  -- The walk: old temporary files are removed, variants are listed and counted.
  unfoldable pub visit : ℕ → DiskFile → List DiskFile × Tally → List DiskFile × Tally
  visit now f w =
      let (items, t) = w in
      elim f.kind [
        | FileKind.temporary ↦
            if ltb stale_tmp_age (age now f) && removable f
            then (items, count_removed f 0 t)
            else (items, t)
        | FileKind.variant ↦ (items ++ (f ∷ []), record t { total = t.total + f.bytes })
        | FileKind.other ↦ (items, t)
      ]

  unfoldable pub walk : ℕ → List DiskFile → List DiskFile × Tally → List DiskFile × Tally
  unfolding visit
  walk now [] w = w
  walk now (f ∷ l) w = walk now l (visit now f w)

  -- The variants that outlived their time are removed, the others kept.
  unfoldable pub expire : ℕ → ℕ → List DiskFile → Tally → List DiskFile × Tally
  unfolding remove_file
  expire now ttl [] t = ([], t)
  expire now ttl (f ∷ l) t =
      let dropped = expire now ttl l (remove_file f t) in
      let (kept, u) = expire now ttl l t in if is_outdated now ttl f then dropped else (f ∷ kept, u)

  -- The oldest are removed until the total is at the target.
  unfoldable pub evict : ℕ → List DiskFile → Tally → Tally
  unfolding remove_file
  evict target [] t = t
  evict target (f ∷ l) t =
      let rest = evict target l (remove_file f t) in if leb t.total target then t else rest

  unfoldable pub fit : ℕ → List DiskFile → Tally → Tally
  fit limit kept t =
      if ltb 0 limit && ltb limit t.total
      then evict (limit * trim_target_percent / 100) (sort_by_mtime kept) t
      else t

  -- `Trim` from `now` to `done`, the time that it records; `limit` is the limit as it is read again
  -- after the walk.
  unfoldable pub trim : ℕ → ℕ → ℕ → List DiskFile → Disk → Disk × Tally
  unfolding fit
  trim now done limit files d =
      let (items, t) = walk now files ([], no_tally) in
      let (kept, u) = expire now d.ttl items t in
      let max_bytes = if ltb 0 limit then limit else d.max_bytes in
      if d.enabled then (record d { last_trim = done }, fit max_bytes kept u) else (d, no_tally)
