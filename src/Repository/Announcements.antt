-- ===== src/Repository/Announcements.antt =====
-- internal/repository/announcements_repo.go: the announcements table.
pub mod Stored
pub mod Expiry
pub mod Quiet
use audistro_provider.Prelude.{
  ℕ, ◌+◌, ◌*◌, ◌/◌, Bool, true, false, not, ◌&&◌, Option, none, some, List, [], ◌∷◌, map, Text,
  count, ltb, leb, if◌then◌else◌,
}
use audistro_provider.Go.Int64.{ℤ}
use audistro_provider.Go.Map.{Map, lookup, insert}
use audistro_provider.Go.Time.{Instant, is_zero, second, of_unix}
use audistro_provider.Repository.Db.{
  AnnouncementStatus, ok, rejected, failed, expired, Stamp, blank, garbled, at, StoredAnnouncement,
  AssetRow, Db, Query, call, counted_call, to_seconds, text_of,
}

-- `AnnouncementRow` without its key; the zero instant stands for a time that was not stored.
pub record AnnouncementRow : Type 0 where
  pub last_announced_at : Instant
  pub expires_at : Instant
  pub status : AnnouncementStatus
  pub created_at : Instant
  pub updated_at : Instant

-- The text that is stored for an instant: none for the zero one.
abbrev pub stamp : Instant → Stamp
stamp t = if is_zero t then blank else text_of t

abbrev created_or : Option StoredAnnouncement → Stamp → Stamp
created_or none now = now
created_or (some row) now = row.created_at

abbrev pub stored_row :
    Instant
    → Instant
    → AnnouncementStatus
    → Instant
    → Option StoredAnnouncement
    → StoredAnnouncement
stored_row last_announced expires status now old = record {
  last_announced_at = stamp last_announced;
  expires_at = stamp expires;
  status = status;
  created_at = created_or old (text_of now);
  updated_at = text_of now;
}

abbrev pub is_known : Option AssetRow → Bool
is_known none = false
is_known (some row) = true

-- `UpsertAnnouncementStatus`; an enforced foreign key refuses an asset that has no row.
unfoldable pub upsert_announcement_status :
    Text → Instant → Instant → AnnouncementStatus → Instant → Query Unit
upsert_announcement_status asset_id last_announced expires status now = call (λ db.
    if db.foreign_keys && not (is_known (lookup asset_id db.assets)) then (none, db) else (
      some tt,
      record db {
        announcements =
            insert asset_id
              (stored_row last_announced expires status now (lookup asset_id db.announcements))
              db.announcements;
      },
    ))

-- The instant of a stored time: `none` where the text does not parse.
abbrev pub parse : Stamp → Option Instant
parse blank = some 0
parse (at s) = some (s * second)
parse (garbled place) = none

-- Where a text that does not parse is passed over.
abbrev pub parse_or_zero : Stamp → Instant
parse_or_zero blank = 0
parse_or_zero (at s) = s * second
parse_or_zero (garbled place) = 0

abbrev row_with : StoredAnnouncement → Instant → Instant → AnnouncementRow
row_with row last_announced expires = record {
  last_announced_at = last_announced;
  expires_at = expires;
  status = row.status;
  created_at = parse_or_zero row.created_at;
  updated_at = parse_or_zero row.updated_at;
}

abbrev pub with_expiry : StoredAnnouncement → Instant → Option Instant → Option AnnouncementRow
with_expiry row last_announced none = none
with_expiry row last_announced (some expires) = some (row_with row last_announced expires)

abbrev pub parse_row : StoredAnnouncement → Option Instant → Option AnnouncementRow
parse_row row none = none
parse_row row (some last_announced) = with_expiry row last_announced (parse row.expires_at)

abbrev pub if_parsed : Option AnnouncementRow → Option (Option AnnouncementRow)
if_parsed none = none
if_parsed (some parsed) = some (some parsed)

-- sql.ErrNoRows is no error: the result is a missing row.
abbrev found : Option StoredAnnouncement → Option (Option AnnouncementRow)
found none = some none
found (some row) = if_parsed (parse_row row (parse row.last_announced_at))

unfoldable pub get_announcement : Text → Query (Option AnnouncementRow)
get_announcement asset_id = call (λ db. (found (lookup asset_id db.announcements), db))

abbrev pub is_expired : AnnouncementStatus → Bool
is_expired expired = true
is_expired _ = false

-- `expires_at != '' AND expires_at < cutoff`, on texts.
abbrev pub expires_before : Stamp → ℕ → Bool
expires_before blank cutoff = false
expires_before (garbled place) cutoff = leb place cutoff
expires_before (at s) cutoff = ltb s cutoff

abbrev pub expires_now : ℕ → StoredAnnouncement → Bool
expires_now cutoff row = not (is_expired row.status) && expires_before row.expires_at cutoff

abbrev pub expired_row : ℕ → Instant → StoredAnnouncement → StoredAnnouncement
expired_row cutoff now row =
    if expires_now cutoff row
    then record row { status = expired; updated_at = text_of now }
    else row

abbrev pub expire_row : ℕ → Instant → Text × StoredAnnouncement → Text × StoredAnnouncement
expire_row cutoff now (id, row) = (id, expired_row cutoff now row)

-- `MarkExpiredBefore`; `now` is what `time.Now` reads in it. The cutoff is before year 10000.
unfoldable pub mark_expired_before : ℤ → Instant → Query ℕ
mark_expired_before cutoff_unix now =
    let cutoff = to_seconds (of_unix cutoff_unix) in
    counted_call (λ db. (
      count (λ e. expires_now cutoff e.1) db.announcements,
      record db { announcements = map (expire_row cutoff now) db.announcements },
    ))
