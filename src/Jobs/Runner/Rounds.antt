-- ===== src/Jobs/Runner/Rounds.antt =====
-- What the rounds of the loops of runner.go do to the tables.
use audistro_provider.Prelude.{ℕ, ◌≡◌, refl, Bool, true, false, Option, none, some}
use audistro_provider.Go.Int64.{ℤ}
use audistro_provider.Go.Time.{Instant}
use audistro_provider.Scanner.{ScanResult}
use audistro_provider.Repository.Db.{Db}
use audistro_provider.Repository.Assets.{count_missing}
use audistro_provider.Repository.Changes.{Changes, IsIntact, Keeps}
use audistro_provider.Repository.Changes.Calls.{
  Change-Changes, Changes-append, count_missing-Change,
}
use audistro_provider.Repository.Changes.Kept.{Changes-Keeps}
use audistro_provider.Repository.Changes.Intact.{Changes-IsIntact}
use audistro_provider.Jobs.Rescan.{RescanResult, run_rescan_job}
use audistro_provider.Jobs.Sweep.{SweepEnv, Sweep, run_announce_sweep}
use audistro_provider.Jobs.Effects.{
  run_rescan_job-Changes, run_announce_sweep-Changes, run_cleanup_job-Changes,
}
use audistro_provider.Jobs.Runner.{
  Gauges, RunnerState, after_rescan, report_rescan, set_missing, rescan_round, after_sweep,
  sweep_round, cleanup_round,
}

-- A round of one of the three loops, with whatever it meets.
pub data Round (s : RunnerState) : RunnerState → Type 0 where
  rescans :
      (scan : Option ScanResult) (now later : Instant) → Round s (rescan_round scan now later s)
  sweeps :
      (env : SweepEnv) (configured : Bool) (now counted later : Instant)
      → Round s (sweep_round env configured now counted later s)
  cleans : (grace : ℤ) (now later : Instant) → Round s (cleanup_round grace now later s)

pub data Rounds (s : RunnerState) : RunnerState → Type 0 where
  none_yet : Rounds s s
  then_one : {t u : RunnerState} → Rounds s t → Round t u → Rounds s u

set_missing-Changes :
    (db : Db) (r : Option ℕ × Db) (g : Gauges) → Changes db r.1 → Changes db (set_missing r g).1
set_missing-Changes db (none, d) g h = h
set_missing-Changes db (some n, d) g h = h

report_rescan-Changes :
    (result : RescanResult) (g : Option Gauges) (db : Db) → Changes db (report_rescan result g db).1
report_rescan-Changes result none db = Changes.none_yet
report_rescan-Changes result (some g) db =
    set_missing-Changes db (count_missing db) _ (Change-Changes db _ (count_missing-Change db))

after_rescan-Changes :
    (r : Option RescanResult × Db) (later : Instant) (s : RunnerState)
    → Changes r.1 (after_rescan r later s).db
after_rescan-Changes (none, db) later s = Changes.none_yet
after_rescan-Changes (some result, db) later s = report_rescan-Changes result s.gauges db

pub after_sweep-db :
    (r : Bool × Sweep) (counted later : Instant) (s : RunnerState)
    → ((after_sweep r counted later s).db ≡ r.1.db)
      × ((after_sweep r counted later s).backoff ≡ r.1.backoff)
after_sweep-db (false, w) counted later s = (refl, refl)
after_sweep-db (true, w) counted later s = (refl, refl)

Round-Changes : (s t : RunnerState) → Round s t → Changes s.db t.db
unfolding rescan_round sweep_round cleanup_round
Round-Changes s _ (rescans scan now later) =
    Changes-append s.db (run_rescan_job scan now s.db).1 _ (run_rescan_job-Changes scan now s.db)
      (after_rescan-Changes (run_rescan_job scan now s.db) later s)
Round-Changes s _ (sweeps env configured now counted later) =
    rw ((after_sweep-db (run_announce_sweep env now configured s.db s.backoff) counted later s).0)
      (run_announce_sweep-Changes env now configured s.db s.backoff)
Round-Changes s _ (cleans grace now later) = run_cleanup_job-Changes grace now later s.db

Rounds-Changes : (s t : RunnerState) → Rounds s t → Changes s.db t.db
Rounds-Changes s _ none_yet = Changes.none_yet
Rounds-Changes s u (then_one {t = t} before last) =
    Changes-append s.db t.db u.db (Rounds-Changes s t before) (Round-Changes t u last)

-- However the rounds of the three loops follow each other and whatever they meet, the tables stay
-- intact: both primary keys hold, and every announcement is one of an asset that has a row, whether
-- the connection enforces the foreign key or not. No row is lost or gets another time of creation.
pub Rounds-IsIntact :
    (s t : RunnerState) → Rounds s t → IsIntact s.db → IsIntact t.db × Keeps s.db t.db
Rounds-IsIntact s t rounds i =
    let changes = Rounds-Changes s t rounds in
    (Changes-IsIntact s.db t.db changes i, Changes-Keeps s.db t.db changes)
