-- ===== src/ImageCache/Token.antt =====
-- Who holds the token of a pass over the thumbnails (internal/imagecache/disk.go): the caller that
-- `BeginTrim` let through, by hand or from `MaybeTrim`, until it releases the token. `Trim` is also
-- called without the token, and waits for its lock then.
use emby_go.Base.{ℕ, ◌+◌, ◌-◌, ◌≤◌, ◌≡◌, Bool, List, [], ◌∷◌, leb, ◌==◌, if◌then◌else◌, arith}
use emby_go.ImageCache.Disk.{DiskFile, Disk, set_max_bytes, begin_trim, release, maybe_trim}
use emby_go.ImageCache.Trim.{trim}

-- The cache, and how many passes with the token run on it.
pub record Cleaning : Type 0 where
  pub disk : Disk
  pub passes : ℕ

-- What the callers do: ask for the token, end a pass and release it, ask in the background, set the
-- limit, and trim without the token.
pub data Deed : Type 0 where
  ask : Deed
  finish_pass : ℕ → ℕ → Deed
  ask_maybe : ℕ → Deed
  resize : ℕ → Deed
  trim_directly : ℕ → ℕ → Deed

unfoldable pub let_through : Disk × Bool → ℕ → Cleaning
let_through a passes =
    let (d, ok) = a in record { disk = d; passes = if ok then passes + 1 else passes }

module _ (removable : DiskFile → Bool) (files : List DiskFile) where
  unfoldable pub deed : Deed → Cleaning → Cleaning
  unfolding let_through
  deed Deed.ask c = let_through (begin_trim c.disk) c.passes
  deed (Deed.ask_maybe now) c = let_through (maybe_trim now c.disk) c.passes
  deed (Deed.resize limit) c = record c { disk = set_max_bytes limit c.disk }
  deed (Deed.trim_directly now done) c = record c {
    disk = (trim removable now done c.disk.max_bytes files c.disk).0;
  }
  deed (Deed.finish_pass now done) c = if c.passes == 0 then c else record {
    disk = release (trim removable now done c.disk.max_bytes files c.disk).0;
    passes = c.passes - 1;
  }

  abbrev pub deeds : List Deed → Cleaning → Cleaning
  deeds [] c = c
  deeds (a ∷ l) c = deeds l (deed a c)

  -- The token is out exactly while a pass runs, and at most one does.
  abbrev pub IsSingle : Cleaning → Type 0
  IsSingle c = (c.passes ≤ 1) × (c.disk.trimming ≡ leb 1 c.passes)

  deed-IsSingle : (a : Deed) (c : Cleaning) → IsSingle c → IsSingle (deed a c)
  unfolding deed let_through begin_trim maybe_trim set_max_bytes release trim
  deed-IsSingle Deed.ask c h = ground arith
  deed-IsSingle (Deed.ask_maybe now) c h = ground arith
  deed-IsSingle (Deed.resize limit) c h = ground arith
  deed-IsSingle (Deed.trim_directly now done) c h = ground arith
  deed-IsSingle (Deed.finish_pass now done) c h = ground arith

  -- Over any sequence of requests for the token, background requests, changes of the limit, direct
  -- passes and releases: where at most one pass with the token runs, and the token is out exactly while
  -- it does, that stays so.
  pub deeds-IsSingle : (l : List Deed) (c : Cleaning) → IsSingle c → IsSingle (deeds l c)
  deeds-IsSingle [] c h = h
  deeds-IsSingle (a ∷ l) c h = deeds-IsSingle l (deed a c) (deed-IsSingle a c h)
