-- ===== src/Tests/Jobs.antt =====
-- Runs of the jobs.
use audistro_provider.Prelude.{
  ◌+◌, ◌-◌, ◌*◌, ◌/◌, ◌^◌, ◌≤◌, ◌<◌, ◌≡◌, refl, ◌↔◌, true, false, codes, some, Text, ◌⊎◌, arith,
  All, length, min, text_eq, if◌then◌else◌, [],
}
use mathlib.Core.Option
use audistro_provider.Go.Int64.{pos, wrap, ◌*ℤ◌, ◌-ℤ◌}
use audistro_provider.Go.Time.{second, of_unix, year_10000}
use audistro_provider.Go.Map.{lookup, insert, HasDistinctKeys}
use audistro_provider.Repository.Db.{
  active, missing, StoredAnnouncement, expired, to_seconds, met, healthy,
}
use audistro_provider.Repository.Assets.{
  row_of, active_ids, contains, upsert_assets, mark_missing, count_active, upsert_row,
}
use audistro_provider.Repository.Announcements.{
  AnnouncementRow, upsert_announcement_status, get_announcement, mark_expired_before,
}
use audistro_provider.Repository.Announcements.Stored.{get-upsert}
use audistro_provider.Jobs.Backoff.{
  transient, ErrorClass, can_attempt, count_deferred, next_attempt, record_class,
}
use audistro_provider.Jobs.Backoff.Delay.{next_attempt_bounds}
use audistro_provider.Jobs.Backoff.Record.{
  is_due, retry_at, can_attempt-record_class, count_deferred-eq-zero_iff,
}
use audistro_provider.Jobs.Rescan.{seen_ids, to_record, run_rescan_job}
use audistro_provider.Jobs.Rescan.Effect.{status_at, rescan-status, rescan-row}
use audistro_provider.Jobs.Rescan.Counts.{rescan-active_assets}
use audistro_provider.Jobs.Sweep.{
  Sweep, start, settle, sweep_one, threshold, run_announce_sweep, status_of,
}
use audistro_provider.Catalog.Client.{AnnounceRequest}
use audistro_provider.Jobs.Sweep.Counts.{IsTallied, run_announce_sweep-IsTallied}
use audistro_provider.Jobs.Sweep.Deferral.{IsPermitted, run_announce_sweep-IsPermitted}
use audistro_provider.Jobs.Sweep.Renewal.{sweep_one-attempted_iff}
use audistro_provider.Jobs.Cleanup.{IsOverdue, run_cleanup_job, run_cleanup_job-marks}
use audistro_provider.Tests.Fixtures.{
  song, talk, noon, asset_of, song_scan, announced, talk_db, delays, no_failures, least, agreeing,
  row_in,
}

sweep-IsPermitted_example :
    All
      (IsPermitted (talk_db active) no_failures noon)
      (run_announce_sweep agreeing noon true (talk_db active) no_failures).1.sent
unfolding lookup
sweep-IsPermitted_example =
    run_announce_sweep-IsPermitted agreeing noon true (talk_db active) no_failures (refl, tt)

sweep-IsTallied_example :
    IsTallied
      (length (active_ids (talk_db active).assets))
      (run_announce_sweep agreeing noon true (talk_db active) no_failures).1
sweep-IsTallied_example =
    run_announce_sweep-IsTallied agreeing noon true (talk_db active) no_failures

can_attempt-record_class_example :
    can_attempt (record_class no_failures least song transient noon) talk noon ≡ (
      if text_eq song talk
      then is_due (retry_at delays least transient 0 noon) noon
      else can_attempt no_failures talk noon)
unfolding lookup
can_attempt-record_class_example =
    can_attempt-record_class no_failures least song talk transient noon noon

count_deferred_example :
    (count_deferred no_failures noon ≡ 0)
    ↔ ((asset_id : Text) → can_attempt no_failures asset_id noon ≡ true)
count_deferred_example = count_deferred-eq-zero_iff no_failures noon tt

next_attempt_example :
    (noon + min (2 * second * 2 ^ (4 - 1)) (600 * second) ≤ next_attempt delays least noon 4)
    × (next_attempt delays least noon 4
        ≤ noon
          + (min (2 * second * 2 ^ (4 - 1)) (600 * second)
              + min (2 * second * 2 ^ (4 - 1)) (600 * second) / 4))
    × (next_attempt delays least noon 4 ≤ noon + 600 * second)
next_attempt_example =
    next_attempt_bounds delays least (2 * second) (600 * second) refl refl (omega arith)
      (omega arith) (λ n positive. (0, refl, positive)) noon 4

-- The rescan finds the song, which is new, and not the talk.
rescanned_song :
    (run_rescan_job (some song_scan) noon (talk_db active)).0
    ≡ some (record { scanned_assets = 1; active_assets = 1; missing_assets = 1 })
unfolding run_rescan_job upsert_assets mark_missing count_active upsert_row insert text_eq
rescanned_song = refl

rescan-status_example :
    ((id : Text)
      → status_at id (run_rescan_job (some song_scan) noon (talk_db active)).1.assets ≡ (
          if contains (seen_ids song_scan.assets) id
          then some active
          else Option.map (λ row. missing) (lookup id (talk_db active).assets)))
    × ((run_rescan_job (some song_scan) noon (talk_db active)).1.announcements
        ≡ (talk_db active).announcements)
rescan-status_example = rescan-status song_scan noon (talk_db active) _ rescanned_song

rescan-row_example :
    lookup song (run_rescan_job (some song_scan) noon (talk_db active)).1.assets
    ≡ some
        (row_of (to_record (asset_of song)) (to_seconds noon) (lookup song (talk_db active).assets))
rescan-row_example =
    rescan-row song_scan noon (talk_db active) _ [] [] (asset_of song) rescanned_song refl
      (refl, tt)

rescan-active_assets_example :
    (1 ≡ length song_scan.assets)
    × HasDistinctKeys (run_rescan_job (some song_scan) noon (talk_db active)).1.assets
unfolding lookup
rescan-active_assets_example =
    rescan-active_assets song_scan noon (talk_db active) _ rescanned_song (refl, tt) (refl, tt)

-- The announcement of the talk expired in second 1000, long before.
marked_talk : (run_cleanup_job (pos 60) noon noon (talk_db active)).0 ≡ some 1
unfolding run_cleanup_job mark_expired_before ◌*ℤ◌ wrap ◌-ℤ◌
marked_talk = refl

cleanup_example :
    (row' : StoredAnnouncement) × (lookup talk
        (run_cleanup_job (pos 60) noon noon (talk_db active)).1.announcements
      ≡ some row')
    × (row'.expires_at ≡ (announced 1000).expires_at)
    × ((row'.status ≡ expired)
        ↔ (((announced 1000).status ≡ expired) ⊎ IsOverdue 60 noon (announced 1000)))
unfolding lookup text_eq
cleanup_example =
    run_cleanup_job-marks 60 noon noon (talk_db active) 1 talk (announced 1000) marked_talk refl
      (λ s e. ground arith) (omega arith) (omega arith)

-- The song's row is there for its announcement to refer to.
stored_talk :
    (upsert_announcement_status talk noon
      (noon + 600 * second)
      (status_of ErrorClass.ok)
      noon
      (talk_db active)).0
    ≡ some tt
unfolding upsert_announcement_status lookup text_eq
stored_talk = refl

reads_on :
    met
      (upsert_announcement_status talk noon
        (noon + 600 * second)
        (status_of ErrorClass.ok)
        noon
        (talk_db active)).1
    ≡ healthy
unfolding upsert_announcement_status lookup text_eq
reads_on = refl

early : noon / second < year_10000
unfolding year_10000
early = omega arith

-- The talk is announced, and swept again a second later.
abbrev talk_request : AnnounceRequest
talk_request = record {
  asset_id = talk;
  transport = codes "https";
  base_url = codes "https://p";
  priority = pos 10;
  expires_in_seconds = pos 600;
  expires_at = pos 1_600_000_600;
  nonce = codes "n";
  signature = codes "s";
}

abbrev first_sweep : Sweep
first_sweep = start agreeing noon (talk_db active) no_failures

abbrev second_sweep : Sweep
second_sweep =
    start agreeing (noon + second)
      (settle agreeing noon talk talk_request ErrorClass.ok first_sweep).db no_failures

sweep_one_example :
    ((sweep_one agreeing (noon + second) talk second_sweep).result.attempted
      ≡ second_sweep.result.attempted)
    ↔ (((ErrorClass.ok ≡ ErrorClass.ok)
          × (0 < of_unix talk_request.expires_at / second)
          × (threshold agreeing (noon + second)
              ≤ of_unix talk_request.expires_at / second * second))
        ⊎ (can_attempt second_sweep.backoff talk (noon + second) ≡ false))
unfolding year_10000 lookup text_eq
sweep_one_example =
    sweep_one-attempted_iff agreeing agreeing noon (noon + second) talk talk_request ErrorClass.ok
      first_sweep second_sweep (row_in active) early (omega arith) refl refl refl

get-upsert_example :
    (row : AnnouncementRow) × ((get_announcement talk
        (upsert_announcement_status talk noon
          (noon + 600 * second)
          (status_of ErrorClass.ok)
          noon
          (talk_db active)).1).0
      ≡ some (some row))
    × (row.status ≡ status_of ErrorClass.ok)
    × (row.last_announced_at ≡ noon / second * second)
    × (row.expires_at ≡ (noon + 600 * second) / second * second)
unfolding year_10000
get-upsert_example =
    get-upsert talk noon (noon + 600 * second) (status_of ErrorClass.ok) noon (talk_db active) early
      (omega arith) stored_talk (λ e. ground (arith, reads_on))
