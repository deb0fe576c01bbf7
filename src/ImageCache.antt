-- ===== src/ImageCache.antt =====
-- internal/imagecache/disk.go: the thumbnails on disk. `Disk` is the state with its settings and the
-- token of the one cleaning pass, `Trim` the pass itself, `Freed` what a pass may remove,
-- `Counted` its counters, `Fits` what it leaves,
-- `Token` who holds the token.
pub mod Disk
pub mod Trim
pub mod Freed
pub mod Counted
pub mod Fits
pub mod Token
mod Tests
