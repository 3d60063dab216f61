-- ===== src/Repository/Announcements/Stored.antt =====
-- What announcements_repo.go reads back of what it stored.
use audistro_provider.Prelude.{
  ◌*◌, ◌/◌, ◌≡◌, ◌<◌, refl, ◌≢◌, Option, some, Text, arith, text_eq_refl, ◌∙◌, ap,
}
use audistro_provider.Go.Time.{Instant, second, year_10000}
use audistro_provider.Go.Map.{lookup, insert, lookup-insert}
use audistro_provider.Repository.Db.{
  AnnouncementStatus, StoredAnnouncement, Db, refused, met, text_of,
}
use audistro_provider.Repository.Announcements.{
  AnnouncementRow, stamp, parse, stored_row, row_with, found, if_parsed, parse_row, with_expiry,
  upsert_announcement_status, get_announcement,
}

-- Times before year 10000 come back to the second.
parse-stamp : (t : Instant) → t / second < year_10000 → parse (stamp t) ≡ some (t / second * second)
unfolding text_of
parse-stamp t early = ground arith

pub upsert-announcements :
    (asset_id : Text) (last expires : Instant) (status : AnnouncementStatus) (now : Instant)
    (db : Db)
    → (upsert_announcement_status asset_id last expires status now db).0 ≡ some tt
    → (upsert_announcement_status asset_id last expires status now db).1.announcements
      ≡ insert asset_id
          (stored_row last expires status now (lookup asset_id db.announcements))
          db.announcements
unfolding upsert_announcement_status
upsert-announcements asset_id last expires status now db put = ground arith

get-found :
    (asset_id : Text) (db : Db)
    → met db ≢ refused
    → (get_announcement asset_id db).0 ≡ found (lookup asset_id db.announcements)
unfolding get_announcement
get-found asset_id db reads = ground arith

found-parsed :
    (row : StoredAnnouncement) (last expires : Instant)
    → parse row.last_announced_at ≡ some last
    → parse row.expires_at ≡ some expires
    → found (some row) ≡ some (some (row_with row last expires))
found-parsed row last expires e e' =
    ap (λ o. if_parsed (parse_row row o)) e ∙ ap (λ o. if_parsed (with_expiry row last o)) e'

found-stored_row :
    (last expires : Instant) (status : AnnouncementStatus) (now : Instant)
    (old : Option StoredAnnouncement)
    → last / second < year_10000
    → expires / second < year_10000
    → found (some (stored_row last expires status now old))
      ≡ some (
          some (
            row_with
              (stored_row last expires status now old)
              (last / second * second)
              (expires / second * second)))
found-stored_row last expires status now old early early' =
    found-parsed (stored_row last expires status now old) _ _ (parse-stamp last early)
      (parse-stamp expires early')

-- An announcement that was stored is read back, where no call fails: its status, and its times to
-- the second, if they are before year 10000.
pub get-upsert :
    (asset_id : Text) (last expires : Instant) (status : AnnouncementStatus) (now : Instant)
    (db : Db)
    → last / second < year_10000
    → expires / second < year_10000
    → (upsert_announcement_status asset_id last expires status now db).0 ≡ some tt
    → met (upsert_announcement_status asset_id last expires status now db).1 ≢ refused
    → (row : AnnouncementRow) × ((get_announcement asset_id
          (upsert_announcement_status asset_id last expires status now db).1).0
        ≡ some (some row))
      × (row.status ≡ status)
      × (row.last_announced_at ≡ last / second * second)
      × (row.expires_at ≡ expires / second * second)
get-upsert asset_id last expires status now db early early' put reads =
    let old = lookup asset_id db.announcements in
    (
      row_with (stored_row last expires status now old) (last / second * second)
          (expires / second * second),
      get-found asset_id (upsert_announcement_status asset_id last expires status now db).1 reads
          ∙ rw
              (
                upsert-announcements asset_id last expires status now db put,
                lookup-insert,
                text_eq_refl asset_id,
              )
              (found-stored_row last expires status now old early early'),
      refl,
      refl,
      refl,
    )
