-- ===== src/Jobs/Runner.antt =====
-- internal/jobs/runner.go: the three periodic jobs and the status that they share. What the jobs meet
-- outside, and what the clock reads, is an argument of each round.
pub mod Loop
pub mod Rounds
pub mod Reported
use audistro_provider.Prelude.{
  ℕ, suc, ◌+◌, ◌*◌, Bool, true, false, Option, none, some, List, [], ◌∷◌, if◌then◌else◌,
}
use audistro_provider.Go.Int64.{ℤ, pos, leb_ℤ, ◌*ℤ◌}
use audistro_provider.Go.Time.{Instant, Duration, second, minute}
use audistro_provider.Scanner.{ScanResult}
use audistro_provider.Repository.Db.{Db}
use audistro_provider.Repository.Assets.{count_missing}
use audistro_provider.Jobs.Backoff.{BackoffState, count_deferred}
use audistro_provider.Jobs.Rescan.{RescanResult, run_rescan_job}
use audistro_provider.Jobs.Sweep.{SweepEnv, Sweep, run_announce_sweep}
use audistro_provider.Jobs.Cleanup.{run_cleanup_job}

pub record Status : Type 0 where
  pub jobs_enabled : Bool
  pub last_rescan_at : Instant
  pub last_announce_sweep_at : Instant
  pub deferred_announces_count : ℕ

unfoldable pub new_status : Bool → Status
new_status enabled = record {
  jobs_enabled = enabled;
  last_rescan_at = 0;
  last_announce_sweep_at = 0;
  deferred_announces_count = 0;
}

unfoldable pub set_last_rescan_at : Instant → Status → Status
set_last_rescan_at t s = record s { last_rescan_at = t }

unfoldable pub set_last_announce_sweep : Instant → ℕ → Status → Status
set_last_announce_sweep t deferred s = record s {
  last_announce_sweep_at = t;
  deferred_announces_count = deferred;
}

-- The gauges and the counts of sweeps by result that the runner sets.
pub record Gauges : Type 0 where
  pub active_assets : ℕ
  pub missing_assets : ℕ
  pub deferred_announces : ℕ
  pub ok_sweeps : ℕ
  pub failed_sweeps : ℕ

-- The state that the jobs share; `gauges` is none where the runner has no metrics.
pub record RunnerState : Type 0 where
  pub db : Db
  pub backoff : BackoffState
  pub status : Status
  pub gauges : Option Gauges

abbrev pub with_gauges : (Gauges → Gauges) → Option Gauges → Option Gauges
with_gauges f none = none
with_gauges f (some g) = some (f g)

abbrev pub set_missing : Option ℕ × Db → Gauges → Gauges × Db
set_missing (none, db) g = (g, db)
set_missing (some n, db) g = (record g { missing_assets = n }, db)

abbrev pub report_rescan : RescanResult → Option Gauges → Db → Option Gauges × Db
report_rescan result none db = (none, db)
report_rescan result (some g) db =
    let (g', db') =
      set_missing (count_missing db) (record g { active_assets = result.active_assets }) in
    (some g', db')

abbrev pub after_rescan : Option RescanResult × Db → Instant → RunnerState → RunnerState
after_rescan (none, db) later s = record s { db = db }
after_rescan (some result, db) later s =
    let (gauges, db') = report_rescan result s.gauges db in
    record s { db = db'; gauges = gauges; status = set_last_rescan_at later s.status }

-- One round of rescanLoop: `now` is the clock of the job, `later` the one after it.
unfoldable pub rescan_round : Option ScanResult → Instant → Instant → RunnerState → RunnerState
rescan_round scan now later s = after_rescan (run_rescan_job scan now s.db) later s

abbrev pub after_sweep : Bool × Sweep → Instant → Instant → RunnerState → RunnerState
after_sweep (false, w) counted later s = record s {
  db = w.db;
  backoff = w.backoff;
  gauges = with_gauges (λ g. record g { failed_sweeps = suc g.failed_sweeps }) s.gauges;
}
after_sweep (true, w) counted later s =
    let deferred = count_deferred w.backoff counted in
    record s {
      db = w.db;
      backoff = w.backoff;
      status = set_last_announce_sweep later deferred s.status;
      gauges =
          with_gauges (λ g. record g { deferred_announces = deferred; ok_sweeps = suc g.ok_sweeps })
            s.gauges;
    }

-- One round of announceSweepLoop: `counted` and `later` are what the clock reads after the sweep.
unfoldable pub sweep_round :
    SweepEnv → Bool → Instant → Instant → Instant → RunnerState → RunnerState
sweep_round env configured now counted later s =
    after_sweep (run_announce_sweep env now configured s.db s.backoff) counted later s

-- One round of cleanupLoop, whose result is only logged.
unfoldable pub cleanup_round : ℤ → Instant → Instant → RunnerState → RunnerState
cleanup_round grace now later s = record s { db = (run_cleanup_job grace now later s.db).1 }

-- The interval of a loop, from the setting in seconds.
unfoldable pub interval_of : ℤ → Duration
interval_of seconds =
    let interval = seconds *ℤ pos second in
    if leb_ℤ interval (pos 0) then pos (5 * minute) else interval

-- What the `select` of runPeriodic takes next.
pub data Event : Type 0 where
  ticked done : Event

-- `runPeriodic`, on the events that its select takes and a job of which each round has a number: the
-- state after them, and whether it has returned.
unfoldable pub wait {ℓ} : {S : Type ℓ} → (ℕ → S → S) → ℕ → List Event → S → S × Bool
wait job n [] s = (s, false)
wait job n (done ∷ events) s = (s, true)
wait job n (ticked ∷ events) s = wait job (suc n) events (job n s)

unfoldable pub run_periodic {ℓ} : {S : Type ℓ} → (ℕ → S → S) → List Event → S → S × Bool
unfolding wait
run_periodic job events s = wait job 1 events (job 0 s)
