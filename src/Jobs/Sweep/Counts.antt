-- ===== src/Jobs/Sweep/Counts.antt =====
-- The numbers that a sweep reports.
use audistro_provider.Prelude.{
  ℕ, ◌+◌, ◌≤◌, ◌≡◌, refl, Bool, true, false, Option, none, some, List, [], ◌∷◌, Text, arith, length,
  Bool-cases, inl, inr,
}
use audistro_provider.Go.Time.{Instant}
use audistro_provider.Repository.Db.{Db}
use audistro_provider.Repository.Assets.{list_active_asset_ids, active_ids}
use audistro_provider.Repository.Announcements.{AnnouncementRow, get_announcement}
use audistro_provider.Catalog.Client.{AnnounceRequest}
use audistro_provider.Jobs.Backoff.{ErrorClass, BackoffState, can_attempt}
use audistro_provider.Jobs.Sweep.{
  AnnounceSweepResult, SweepEnv, Sweep, needs_reannounce, fail_to_build, settle, attempt, on_row,
  sweep_one, sweep_all, threshold, start, run_announce_sweep, on_request, on_ids,
}

abbrev finished : AnnounceSweepResult → ℕ
finished r = r.ok + r.rejected + r.failed

-- The counts of a sweep that has gone through `n` assets.
pub record IsTallied (n : ℕ) (s : Sweep) : Type 0 where
  pub attempts_end : s.result.attempted ≤ finished s.result
  pub once_each : finished s.result + s.result.deferred ≤ n
  pub all_observed : length s.observed ≡ s.result.attempted
  pub all_answered : s.result.ok + s.result.rejected ≤ length s.sent
  pub sent_attempted : length s.sent ≤ s.result.attempted

module _ (env : SweepEnv) (now : Instant) where
  settle-IsTallied :
      (n : ℕ) (asset_id : Text) (req : AnnounceRequest) (class : ErrorClass) (s : Sweep)
      → IsTallied n s
      → IsTallied (n + 1) (
          settle env now asset_id req class
            (record s { result = record s.result { attempted = s.result.attempted + 1 } }))
  unfolding settle
  settle-IsTallied n asset_id req ErrorClass.ok s h = omega arith
  settle-IsTallied n asset_id req _ s h = omega arith

  on_request-IsTallied :
      (n : ℕ) (asset_id : Text) (req : Option AnnounceRequest) (s : Sweep)
      → IsTallied n s
      → IsTallied (n + 1) (
          on_request env now asset_id req
            (record s { result = record s.result { attempted = s.result.attempted + 1 } }))
  unfolding fail_to_build
  on_request-IsTallied n asset_id none s h = omega arith
  on_request-IsTallied n asset_id (some req) s h = settle-IsTallied n asset_id req _ s h

  on_row-IsTallied :
      (n : ℕ) (asset_id : Text) (row : Option (Option AnnouncementRow)) (s : Sweep)
      → IsTallied n s
      → IsTallied (n + 1) (on_row env now asset_id row s)
  unfolding on_row attempt
  on_row-IsTallied n asset_id none s h = omega arith
  on_row-IsTallied n asset_id (some row) s h =
      elim (Bool-cases (needs_reannounce row (threshold env now))) [
        | inl stale ↦ elim (Bool-cases (can_attempt s.backoff asset_id now)) [
          | inl free ↦ rw (stale, free) (on_request-IsTallied n asset_id _ s h)
          | inr waits ↦ rw (stale, waits) (omega arith)
        ]
        | inr fresh ↦ rw fresh (omega arith)
      ]

  sweep_all-IsTallied :
      (n : ℕ) (ids : List Text) (s : Sweep)
      → IsTallied n s
      → IsTallied (n + length ids) (sweep_all env now ids s)
  unfolding sweep_all sweep_one
  sweep_all-IsTallied n [] s h = omega arith
  sweep_all-IsTallied n (id ∷ ids) s h =
      let (row, db) = get_announcement id s.db in
      let step = on_row-IsTallied n id row (record s { db = db }) (omega arith) in
      let rest = sweep_all-IsTallied (n + 1) ids _ step in omega arith

  on_ids-IsTallied :
      (listed : Option (List Text) × Db) (n : ℕ) (backoff : BackoffState)
      → ((ids : List Text) → listed.0 ≡ some ids → length ids ≤ n)
      → IsTallied n (on_ids env now listed backoff).1
  on_ids-IsTallied (none, db) n backoff few = omega arith
  on_ids-IsTallied (some ids, db) n backoff few =
      let total = sweep_all-IsTallied 0 ids (start env now db backoff) (omega arith) in
      omega (arith, few ids refl)

  list-length :
      (db : Db) (ids : List Text)
      → (list_active_asset_ids db).0 ≡ some ids
      → length ids ≤ length (active_ids db.assets)
  unfolding list_active_asset_ids
  list-length db ids e = ground (arith)

-- A sweep counts each active asset at most once: every attempt ends as ok, rejected or failed, and a
-- failed one may also be an asset whose announcement could not be read; those and the deferred ones
-- are no more than the active assets. The metrics see every attempt, and the catalog is asked no more
-- often than attempts are counted, and at least as often as an ok or a rejection is counted. This
-- holds with and without an announcer, and when a call of the database fails.
pub run_announce_sweep-IsTallied :
    (env : SweepEnv) (now : Instant) (configured : Bool) (db : Db) (backoff : BackoffState)
    → IsTallied (length (active_ids db.assets)) (run_announce_sweep env now configured db backoff).1
unfolding run_announce_sweep
run_announce_sweep-IsTallied env now false db backoff = omega arith
run_announce_sweep-IsTallied env now true db backoff =
    on_ids-IsTallied env now (list_active_asset_ids db) _ backoff (list-length env now db)
