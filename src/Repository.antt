-- ===== src/Repository.antt =====
-- internal/repository: the tables of assets and announcements, over the schema of internal/db.
pub mod Db
pub mod Migration
pub mod Changes
pub mod Assets
pub mod Announcements
