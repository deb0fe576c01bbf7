-- ===== src/ImageCache/Disk.antt =====
-- The state of the thumbnail cache (internal/imagecache/disk.go), its settings and its throttling.
-- Times are nanoseconds; a file's name is read as what it makes of the file.
use emby_go.Base.{
  ℕ, ◌-◌, Bool, true, false, not, ◌&&◌, ◌||◌, Option, none, some, String, ltb, leb, if◌then◌else◌,
}

abbrev pub hour : ℕ
hour = 3_600_000_000_000

abbrev pub touch_interval : ℕ
touch_interval = hour

abbrev pub trim_interval : ℕ
trim_interval = 600_000_000_000

abbrev pub trim_target_percent : ℕ
trim_target_percent = 80

abbrev pub stale_tmp_age : ℕ
stale_tmp_age = hour

-- A name that begins with ".tmp-", one that ends in ".webp", and any other.
pub data FileKind : Type 0 where
  temporary variant other : FileKind

pub record DiskFile : Type 0 where
  pub path : String
  pub kind : FileKind
  pub bytes : ℕ
  pub mtime : ℕ

-- The fields of `Disk` without its locks. 0 bytes is no limit, and a time to live of 0 is none.
pub record Disk : Type 0 where
  pub enabled : Bool
  pub max_bytes : ℕ
  pub ttl : ℕ
  pub last_trim : ℕ
  pub trimming : Bool

abbrev pub disabled : Disk
disabled = record { enabled = false; max_bytes = 0; ttl = 0; last_trim = 0; trimming = false }

-- `Open`: the cache, or none where the directory cannot be made.
unfoldable pub open_disk : Bool → ℕ → ℕ → Bool → Bool → Option Disk
open_disk blank_dir max_bytes ttl enabled made =
    if not enabled || blank_dir
    then some disabled
    else if made
    then some (record {
      enabled = true;
      max_bytes = max_bytes;
      ttl = ttl;
      last_trim = 0;
      trimming = false;
    })
    else none

-- `SetMaxBytes`, which takes a negative limit for 0.
unfoldable pub set_max_bytes : ℕ → Disk → Disk
set_max_bytes limit d = record d { max_bytes = limit }

-- `BeginTrim`: the token, if the cache is enabled and nobody holds it.
unfoldable pub begin_trim : Disk → Disk × Bool
begin_trim d =
    if d.enabled && not d.trimming then (record d { trimming = true }, true) else (d, false)

-- The release that `BeginTrim` returns.
unfoldable pub release : Disk → Disk
release d = record d { trimming = false }

-- `MaybeTrim`: the token for a pass in the background, at most one in ten minutes.
unfoldable pub maybe_trim : ℕ → Disk → Disk × Bool
unfolding begin_trim
maybe_trim now d =
    let unlimited = leb d.ttl 0 && leb d.max_bytes 0 in
    let due = leb trim_interval (now - d.last_trim) in
    if not d.enabled || unlimited || not due then (d, false) else begin_trim d

-- `touch`: the time of the last change after a hit, moved at most once in an hour.
unfoldable pub touch : ℕ → DiskFile → DiskFile
touch now f = if ltb (now - f.mtime) touch_interval then f else record f { mtime = now }
