-- ===== src/Jobs/Sweep.antt =====
-- internal/jobs/announce_sweep.go: the periodic announcement of the active assets.
-- The catalog, the libraries behind a signature and the random draws are arguments: what each answers
-- for an asset in this sweep, which announces an asset at most once.
pub mod Counts
pub mod Keys
pub mod Renewal
pub mod Deferral
use audistro_provider.Prelude.{
  ℕ, ◌+◌, ◌/◌, Bool, true, false, not, Option, none, some, List, [], ◌∷◌, ◌++◌, Text, if◌then◌else◌,
}
use audistro_provider.Go.Int64.{ℤ, pos, ◌*ℤ◌}
use audistro_provider.Go.Time.{Instant, add, second, is_zero, before, of_unix}
use audistro_provider.Repository.Db.{AnnouncementStatus, Db, Query}
use audistro_provider.Repository.Assets.{list_active_asset_ids}
use audistro_provider.Repository.Announcements.{
  AnnouncementRow, upsert_announcement_status, get_announcement,
}
use audistro_provider.Catalog.Client.{CatalogError, AnnounceRequest, Reply, announce}
use audistro_provider.Catalog.Signing.{Announcer, Crypto, build_announcement}
use audistro_provider.Jobs.Backoff.{
  ErrorClass, permanent, transient, Jitter, BackoffState, can_attempt, record_class,
}

-- `ClassifyError` of backoff.go.
unfoldable pub classify_error : Option CatalogError → ErrorClass
classify_error none = ErrorClass.ok
classify_error (some CatalogError.not_found) = ErrorClass.rejected
classify_error (some CatalogError.unauthorized) = ErrorClass.unauthorized
classify_error (some CatalogError.bad_request) = permanent
classify_error (some CatalogError.conflict) = permanent
classify_error (some CatalogError.server) = transient
classify_error (some CatalogError.unexpected) = transient
classify_error (some CatalogError.unconfigured) = transient
classify_error (some CatalogError.other) = transient

pub record AnnounceSweepResult : Type 0 where
  pub attempted : ℕ
  pub ok : ℕ
  pub rejected : ℕ
  pub failed : ℕ
  pub deferred : ℕ

pub record SweepEnv : Type 0 where
  pub announcer : Announcer
  pub reannounce_threshold_seconds : ℤ
  pub crypto : Text → Crypto
  pub reply : AnnounceRequest → Reply
  pub jitter : Text → Jitter

-- The label of `ObserveAnnounce`.
pub data AnnounceLabel : Type 0 where
  ok rejected unauthorized failed : AnnounceLabel

-- `observed` and `sent` list the calls of the metrics and of the catalog, the last one first.
pub record Sweep : Type 0 where
  pub db : Db
  pub backoff : BackoffState
  pub result : AnnounceSweepResult
  pub observed : List AnnounceLabel
  pub sent : List AnnounceRequest

abbrev pub is_ok : AnnouncementStatus → Bool
is_ok AnnouncementStatus.ok = true
is_ok _ = false

abbrev row_is_stale : AnnouncementRow → Instant → Bool
row_is_stale row threshold =
    if not (is_ok row.status)
    then true
    else if is_zero row.expires_at
    then true
    else before row.expires_at threshold

unfoldable pub needs_reannounce : Option AnnouncementRow → Instant → Bool
needs_reannounce none threshold = true
needs_reannounce (some row) threshold = row_is_stale row threshold

abbrev count_failed : AnnounceSweepResult → AnnounceSweepResult
count_failed r = record r { failed = r.failed + 1 }

abbrev tally : ErrorClass → AnnounceSweepResult → AnnounceSweepResult
tally ErrorClass.ok r = record r { ok = r.ok + 1 }
tally ErrorClass.rejected r = record r { rejected = r.rejected + 1 }
tally _ r = count_failed r

abbrev label_of : ErrorClass → AnnounceLabel
label_of ErrorClass.ok = AnnounceLabel.ok
label_of ErrorClass.rejected = AnnounceLabel.rejected
label_of ErrorClass.unauthorized = AnnounceLabel.unauthorized
label_of _ = AnnounceLabel.failed

abbrev pub status_of : ErrorClass → AnnouncementStatus
status_of ErrorClass.ok = AnnouncementStatus.ok
status_of ErrorClass.rejected = AnnouncementStatus.rejected
status_of _ = AnnouncementStatus.failed

module _ (env : SweepEnv) (now : Instant) where
  -- The part of the loop behind a failed `BuildAnnouncement`.
  unfoldable pub fail_to_build : Text → Sweep → Sweep
  fail_to_build asset_id s = record s {
    db = (upsert_announcement_status asset_id 0 0 AnnouncementStatus.failed now s.db).1;
    backoff = record_class s.backoff (env.jitter asset_id) asset_id permanent now;
    result = count_failed s.result;
    observed = AnnounceLabel.failed ∷ s.observed;
  }

  -- The `switch` on the class of the answer, and `backoff.Record`.
  unfoldable pub settle : Text → AnnounceRequest → ErrorClass → Sweep → Sweep
  settle asset_id req class s = record s {
    db =
        (upsert_announcement_status asset_id now (of_unix req.expires_at) (status_of class) now
          s.db).1;
    backoff = record_class s.backoff (env.jitter asset_id) asset_id class now;
    result = tally class s.result;
    observed = label_of class ∷ s.observed;
    sent = req ∷ s.sent;
  }

  abbrev pub on_request : Text → Option AnnounceRequest → Sweep → Sweep
  on_request asset_id none s = fail_to_build asset_id s
  on_request asset_id (some req) s =
      settle asset_id req (classify_error (announce (env.reply req)).0) s

  unfoldable pub attempt : Text → Sweep → Sweep
  unfolding fail_to_build settle
  attempt asset_id s =
      on_request asset_id (build_announcement env.announcer (env.crypto asset_id) asset_id now)
        (record s { result = record s.result { attempted = s.result.attempted + 1 } })

  abbrev pub threshold : Instant
  threshold = add now (env.reannounce_threshold_seconds *ℤ pos second)

  -- The outer option is the error of `GetAnnouncement`.
  unfoldable pub on_row : Text → Option (Option AnnouncementRow) → Sweep → Sweep
  on_row asset_id none s = record s { result = count_failed s.result }
  on_row asset_id (some row) s =
      if not (needs_reannounce row threshold)
      then s
      else if not (can_attempt s.backoff asset_id now)
      then record s { result = record s.result { deferred = s.result.deferred + 1 } }
      else attempt asset_id s

  -- One round of the loop.
  unfoldable pub sweep_one : Text → Sweep → Sweep
  unfolding on_row
  sweep_one asset_id s =
      let (row, db) = get_announcement asset_id s.db in on_row asset_id row (record s { db = db })

  unfoldable pub sweep_all : List Text → Sweep → Sweep
  sweep_all [] s = s
  sweep_all (asset_id ∷ ids) s = sweep_all ids (sweep_one asset_id s)

  abbrev pub start : Db → BackoffState → Sweep
  start db backoff = record {
    db = db;
    backoff = backoff;
    result = record { attempted = 0; ok = 0; rejected = 0; failed = 0; deferred = 0 };
    observed = [];
    sent = [];
  }

  abbrev pub on_ids : Option (List Text) × Db → BackoffState → Bool × Sweep
  on_ids (none, db) backoff = (false, start db backoff)
  on_ids (some ids, db) backoff = (true, sweep_all ids (start db backoff))

  -- `RunAnnounceSweep`, with whether it returned no error; `configured` says that there is an
  -- announcer.
  unfoldable pub run_announce_sweep : Bool → Db → BackoffState → Bool × Sweep
  unfolding sweep_all
  run_announce_sweep false db backoff = (true, start db backoff)
  run_announce_sweep true db backoff = on_ids (list_active_asset_ids db) backoff
