-- ===== src/Song.antt =====
-- Song generation: the lyric manifest, the lifecycle decisions and the service over the task owner.
pub mod Manifest
pub mod Lifecycle
pub mod Service
