-- ===== src/Repository/Announcements/Quiet.antt =====
-- UpsertAnnouncementStatus of announcements_repo.go where no call of the database fails.
use audistro_provider.Prelude.{
  ◌≡◌, refl, false, some, [], Text, arith, if◌then◌else◌, text_eq, text_eq_refl, ◌∙◌,
}
use audistro_provider.Go.Time.{Instant}
use audistro_provider.Go.Map.{Map, lookup, lookup-insert}
use audistro_provider.Repository.Db.{Db, AssetRow, AnnouncementStatus, StoredAnnouncement}
use audistro_provider.Repository.Announcements.Stored.{upsert-announcements}
use audistro_provider.Repository.Announcements.{upsert_announcement_status, stored_row}

-- No call of the database fails, and the assets are those of a table.
abbrev pub IsQuiet : Map AssetRow → Db → Type 0
IsQuiet table db = (db.faults ≡ []) × (db.assets ≡ table)

pub upsert-IsQuiet :
    (table : Map AssetRow) (asset_id : Text) (last expires : Instant) (status : AnnouncementStatus)
    (now : Instant) (db : Db)
    → IsQuiet table db
    → IsQuiet table (upsert_announcement_status asset_id last expires status now db).1
unfolding upsert_announcement_status
upsert-IsQuiet table asset_id last expires status now db (quiet, same) = rw quiet (ground arith)

pub upsert-some :
    (table : Map AssetRow) (asset_id : Text) (last expires : Instant) (status : AnnouncementStatus)
    (now : Instant) (db : Db) (row : AssetRow)
    → IsQuiet table db
    → lookup asset_id table ≡ some row
    → (upsert_announcement_status asset_id last expires status now db).0 ≡ some tt
unfolding upsert_announcement_status
upsert-some table asset_id last expires status now db row (quiet, same) known =
    let held : lookup asset_id db.assets ≡ some row = rw same known in
    simp (quiet, held) (ground arith)

lookup-upsert :
    (table : Map AssetRow) (asset_id id : Text) (last expires : Instant)
    (status : AnnouncementStatus) (now : Instant) (db : Db) (row : AssetRow)
    → IsQuiet table db
    → lookup asset_id table ≡ some row
    → lookup id (upsert_announcement_status asset_id last expires status now db).1.announcements ≡ (
        if text_eq asset_id id
        then some (stored_row last expires status now (lookup asset_id db.announcements))
        else lookup id db.announcements)
lookup-upsert table asset_id id last expires status now db row quiet known =
    let put = upsert-some table asset_id last expires status now db row quiet known in
    rw (upsert-announcements asset_id last expires status now db put) (lookup-insert _ _ _ _)

-- The stored announcement of an asset has a status.
abbrev pub HasStatus : Text → AnnouncementStatus → Db → Type 0
HasStatus id status db =
    (row : StoredAnnouncement) × (lookup id db.announcements ≡ some row) × (row.status ≡ status)

module _ (table : Map AssetRow) (asset_id : Text) (row : AssetRow)
    (known : lookup asset_id table ≡ some row) where
  pub upsert-HasStatus :
      (last expires : Instant) (status : AnnouncementStatus) (now : Instant) (db : Db)
      → IsQuiet table db
      → HasStatus asset_id status (upsert_announcement_status asset_id last expires status now db).1
  upsert-HasStatus last expires status now db quiet = (
    stored_row last expires status now (lookup asset_id db.announcements),
    lookup-upsert table asset_id asset_id last expires status now db row quiet known
        ∙ rw text_eq_refl refl,
    refl,
  )

  pub upsert-HasStatus_other :
      (id : Text) (kept : AnnouncementStatus) (last expires : Instant) (status : AnnouncementStatus)
      (now : Instant) (db : Db)
      → IsQuiet table db
      → text_eq asset_id id ≡ false
      → HasStatus id kept db
      → HasStatus id kept (upsert_announcement_status asset_id last expires status now db).1
  upsert-HasStatus_other id kept last expires status now db quiet other (r, at, e) = (
    r,
    lookup-upsert table asset_id id last expires status now db row quiet known ∙ rw other at,
    e,
  )
