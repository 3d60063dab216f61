-- ===== src/Internalapi.antt =====
-- internal/internalapi: the internal API of the provider.
pub mod Allowlist
pub mod Announce
pub mod Rescan
