-- ===== src/Jobs/Effects.antt =====
-- The three jobs and the rescan on request as sequences of calls of the repository:
-- what holds of every sequence of calls holds however their calls interleave.
use audistro_provider.Prelude.{
  ℕ, Bool, true, false, not, Option, none, some, List, [], ◌∷◌, map, Text, split_if, arith,
  text_eq_refl, refl, ◌≡◌,
}
use audistro_provider.Go.Int64.{ℤ}
use audistro_provider.Go.Time.{Instant, of_unix}
use audistro_provider.Scanner.{ScanResult}
use audistro_provider.Repository.Db.{Db, pure, ◌>>=◌, ◌>>◌}
use audistro_provider.Repository.Assets.{
  AssetRecord, upsert_assets, mark_missing, count_active, list_active_asset_ids,
}
use audistro_provider.Repository.Announcements.{AnnouncementRow, get_announcement}
use audistro_provider.Repository.Changes.{Changes, none_yet, IsGuarded}
use audistro_provider.Repository.Changes.Guarded.{
  Changes-IsGuarded, AllGuarded, list_active-AllGuarded,
}
use audistro_provider.Repository.Changes.Calls.{
  upsert_assets-Change, mark_missing-Change, count_active-Change, list_active-Change,
  get_announcement-Change, upsert_announcement-Change, mark_expired-Change, Change-Changes,
  Changes-append, continue-Changes,
}
use audistro_provider.Catalog.Client.{AnnounceRequest}
use audistro_provider.Jobs.Backoff.{BackoffState, can_attempt}
use audistro_provider.Jobs.Rescan.{run_rescan_job, run_rescan, seen_ids, to_record}
use audistro_provider.Jobs.Cleanup.{run_cleanup_job, cutoff}
use audistro_provider.Jobs.Sweep.{
  SweepEnv, Sweep, needs_reannounce, threshold, fail_to_build, settle, on_request, attempt, on_row,
  sweep_one, sweep_all, start, on_ids, run_announce_sweep,
}

-- The calls that both ways of rescanning make.
rescan-Changes :
    {B : Type 0} (records : List AssetRecord) (seen : List Text) (now : Instant) (db : Db)
    (done : ℕ → ℕ → B)
    → Changes db
        ((do
          upsert_assets records now
          missing ← mark_missing seen now
          active ← count_active
          pure (done missing active))
          db).1
rescan-Changes records seen now db done =
    continue-Changes db (upsert_assets records now db) _
      (Change-Changes db _ (upsert_assets-Change records now db))
      (λ _ d.
        continue-Changes d (mark_missing seen now d) _
          (Change-Changes d _ (mark_missing-Change seen now d))
          (λ _ e.
            continue-Changes e (count_active e) _ (Change-Changes e _ (count_active-Change e))
              (λ _ f. none_yet)))

pub run_rescan_job-Changes :
    (scan : Option ScanResult) (now : Instant) (db : Db) → Changes db (run_rescan_job scan now db).1
unfolding run_rescan_job
run_rescan_job-Changes none now db = none_yet
run_rescan_job-Changes (some scan) now db =
    rescan-Changes (map to_record scan.assets) (seen_ids scan.assets) now db _

run_rescan-Changes :
    (scan : Option ScanResult) (now : Instant) (db : Db) → Changes db (run_rescan scan now db).1
unfolding run_rescan
run_rescan-Changes none now db = none_yet
run_rescan-Changes (some scan) now db =
    rescan-Changes (map to_record scan.assets) (seen_ids scan.assets) now db _

pub run_cleanup_job-Changes :
    (grace : ℤ) (now later : Instant) (db : Db) → Changes db (run_cleanup_job grace now later db).1
unfolding run_cleanup_job
run_cleanup_job-Changes grace now later db =
    Change-Changes db _ (mark_expired-Change (cutoff grace now) later db)

module _ (env : SweepEnv) (now : Instant) where
  on_request-Changes :
      (asset_id : Text) (req : Option AnnounceRequest) (s : Sweep)
      → IsGuarded asset_id s.db
      → Changes s.db (on_request env now asset_id req s).db
  unfolding fail_to_build settle
  on_request-Changes asset_id none s guarded =
      Change-Changes s.db _ (upsert_announcement-Change asset_id 0 0 _ now s.db guarded)
  on_request-Changes asset_id (some req) s guarded =
      Change-Changes s.db _
        (upsert_announcement-Change asset_id now (of_unix req.expires_at) _ now s.db guarded)

  on_row-Changes :
      (asset_id : Text) (row : Option (Option AnnouncementRow)) (s : Sweep)
      → IsGuarded asset_id s.db
      → Changes s.db (on_row env now asset_id row s).db
  unfolding on_row attempt
  on_row-Changes asset_id none s guarded = none_yet
  on_row-Changes asset_id (some row) s guarded =
      split_if (λ (t : Sweep). Changes s.db t.db) (not (needs_reannounce row (threshold env now)))
        (λ e. none_yet)
        (λ e.
          split_if (λ (t : Sweep). Changes s.db t.db) (not (can_attempt s.backoff asset_id now))
            (λ e'. none_yet) (λ e'. on_request-Changes asset_id _ _ guarded))

  sweep_all-Changes :
      (ids : List Text) (s : Sweep)
      → AllGuarded ids s.db
      → Changes s.db (sweep_all env now ids s).db
  unfolding sweep_all sweep_one
  sweep_all-Changes [] s guarded = none_yet
  sweep_all-Changes (asset_id ∷ ids) s guarded =
      let read = get_announcement asset_id s.db in
      let reads = Change-Changes s.db read.1 (get_announcement-Change asset_id s.db) in
      let here =
        Changes-IsGuarded asset_id s.db read.1 reads (guarded asset_id (rw text_eq_refl refl)) in
      let one =
        Changes-append s.db read.1 (sweep_one env now asset_id s).db reads
          (on_row-Changes asset_id read.0 (record s { db = read.1 }) here) in
      Changes-append s.db _ _ one (
        sweep_all-Changes ids (sweep_one env now asset_id s)
          (λ id among. Changes-IsGuarded id s.db _ one (guarded id (ground arith))))

  on_ids-Changes :
      (r : Option (List Text) × Db) (backoff : BackoffState)
      → ((ids : List Text) → r.0 ≡ some ids → AllGuarded ids r.1)
      → Changes r.1 (on_ids env now r backoff).1.db
  on_ids-Changes (none, db) backoff guarded = none_yet
  on_ids-Changes (some ids, db) backoff guarded =
      sweep_all-Changes ids (start env now db backoff) (guarded ids refl)

  pub run_announce_sweep-Changes :
      (configured : Bool) (db : Db) (backoff : BackoffState)
      → Changes db (run_announce_sweep env now configured db backoff).1.db
  unfolding run_announce_sweep
  run_announce_sweep-Changes false db backoff = none_yet
  run_announce_sweep-Changes true db backoff =
      Changes-append db (list_active_asset_ids db).1 _ (Change-Changes db _ (list_active-Change db))
        (on_ids-Changes (list_active_asset_ids db) backoff (list_active-AllGuarded db))

-- Every job is a sequence of calls of the repository, also when some of them fail, which store an
-- announcement only for an asset that has a row: the rescan, the sweep, the cleanup, and the rescan on
-- request.
pub jobs-Changes :
    (db : Db) (scan : Option ScanResult) (env : SweepEnv) (now later : Instant) (configured : Bool)
    (backoff : BackoffState) (grace : ℤ)
    → Changes db (run_rescan_job scan now db).1
      × Changes db (run_announce_sweep env now configured db backoff).1.db
      × Changes db (run_cleanup_job grace now later db).1
      × Changes db (run_rescan scan now db).1
jobs-Changes db scan env now later configured backoff grace = (
  run_rescan_job-Changes scan now db,
  run_announce_sweep-Changes env now configured db backoff,
  run_cleanup_job-Changes grace now later db,
  run_rescan-Changes scan now db,
)
