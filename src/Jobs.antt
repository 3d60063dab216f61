-- ===== src/Jobs.antt =====
-- Background jobs of the provider, internal/jobs.
pub mod Effects
pub mod Backoff
pub mod Rescan
pub mod Sweep
pub mod Cleanup
pub mod Runner
