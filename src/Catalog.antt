-- ===== src/Catalog.antt =====
-- internal/catalog: announcements to the central catalog.
pub mod Client
pub mod Signing
pub mod HealthState
