-- ===== src/Assets.antt =====
-- internal/assets: the public delivery of asset files.
pub mod RateLimit
pub mod BodyLimit
pub mod Paths
pub mod Serve
pub mod Cors
pub mod Upstream
