-- ===== src/Repository/Changes.antt =====
-- The two tables as a step relation: what one call of internal/repository may do to them, and what
-- any sequence of calls does, whoever makes them, if an announcement is stored only for an asset that
-- has a row.
pub mod Kept
pub mod Intact
pub mod Calls
pub mod Guarded
use audistro_provider.Prelude.{ℕ, ◌≡◌, refl, ◌⊎◌, Bool, true, Option, none, some, List, map, Text}
use audistro_provider.Go.Time.{Instant}
use audistro_provider.Go.Map.{Map, lookup, insert, HasDistinctKeys}
use audistro_provider.Repository.Db.{AnnouncementStatus, StoredAnnouncement, AssetRow, Db}
use audistro_provider.Repository.Assets.{AssetRecord, mark_row}
use audistro_provider.Repository.Assets.Tables.{HasAssets, upserted}
use audistro_provider.Repository.Announcements.{stored_row, expire_row}

-- A database that differs from another in the announcements and the coming faults only.
pub record HasAnnouncements (before : Db) (table : Map StoredAnnouncement) (db : Db) : Type 0 where
  pub announcements : db.announcements ≡ table
  pub assets : db.assets ≡ before.assets
  pub foreign_keys : db.foreign_keys ≡ before.foreign_keys

-- The asset has a row.
abbrev pub IsKnown : Text → Db → Type 0
IsKnown id db = (row : AssetRow) × (lookup id db.assets ≡ some row)

-- An announcement may be stored for the asset only if that has a row: it has one, or the connection
-- enforces the foreign key.
abbrev pub IsGuarded : Text → Db → Type 0
IsGuarded id db = (db.foreign_keys ≡ true) ⊎ IsKnown id db

-- An announcement is stored for an asset that has a row.
pub data Change (db db' : Db) : Type 0 where
  unchanged : HasAssets db db.assets db' → Change db db'
  upserts :
      (assets : List AssetRecord) (now : ℕ)
      → HasAssets db (upserted assets now db.assets) db'
      → Change db db'
  marks :
      (seen : List Text) (now : ℕ)
      → HasAssets db (map (mark_row seen now) db.assets) db'
      → Change db db'
  announces :
      (id : Text) (last expires : Instant) (status : AnnouncementStatus) (now : Instant)
      → IsKnown id db
      → HasAnnouncements db
          (insert id
            (stored_row last expires status now (lookup id db.announcements))
            db.announcements)
          db'
      → Change db db'
  expires :
      (cutoff : ℕ) (now : Instant)
      → HasAnnouncements db (map (expire_row cutoff now) db.announcements) db'
      → Change db db'

pub data Changes (db : Db) : Db → Type 0 where
  none_yet : Changes db db
  then_one : {d e : Db} → Changes db d → Change d e → Changes db e

-- The primary keys hold, and so does the reference from announcements to assets.
pub record IsIntact (db : Db) : Type 0 where
  pub asset_keys : HasDistinctKeys db.assets
  pub announcement_keys : HasDistinctKeys db.announcements
  pub references :
      (id : Text)
      → (lookup id db.announcements ≡ none) ⊎ ((row : AssetRow) × (lookup id db.assets ≡ some row))

-- No row is lost, and each keeps its time of creation.
pub record Keeps (db db' : Db) : Type 0 where
  pub assets :
      (id : Text)
      → (lookup id db.assets ≡ none)
        ⊎ ((row row' : AssetRow) × (lookup id db.assets ≡ some row)
            × (lookup id db'.assets ≡ some row')
            × (row'.created_at ≡ row.created_at))
  pub announcements :
      (id : Text)
      → (lookup id db.announcements ≡ none)
        ⊎ ((row row' : StoredAnnouncement) × (lookup id db.announcements ≡ some row)
            × (lookup id db'.announcements ≡ some row')
            × (row'.created_at ≡ row.created_at))
