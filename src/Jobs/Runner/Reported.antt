-- ===== src/Jobs/Runner/Reported.antt =====
-- What the status and the gauges of runner.go say, in every state that the rounds reach.
use audistro_provider.Prelude.{ℕ, suc, Text, ◌≡◌, refl, ◌∙◌, Bool, true, false, Option, none, some}
use audistro_provider.Go.Time.{Instant}
use audistro_provider.Go.Map.{HasDistinctKeys}
use audistro_provider.Repository.Db.{Db}
use audistro_provider.Repository.Assets.{count_missing}
use audistro_provider.Jobs.Backoff.{count_deferred}
use audistro_provider.Jobs.Rescan.{RescanResult, run_rescan_job}
use audistro_provider.Jobs.Sweep.{SweepEnv, Sweep, run_announce_sweep}
use audistro_provider.Jobs.Runner.{
  Gauges, RunnerState, after_rescan, report_rescan, set_missing, rescan_round, after_sweep,
  sweep_round, cleanup_round, set_last_rescan_at, set_last_announce_sweep, with_gauges,
}
use audistro_provider.Jobs.Backoff.{can_attempt}
use audistro_provider.Jobs.Backoff.Record.{count_deferred-eq-zero_iff}
use audistro_provider.Jobs.Sweep.Keys.{run_announce_sweep-HasDistinctKeys}
use audistro_provider.Jobs.Runner.Rounds.{
  Round, rescans, sweeps, cleans, Rounds, none_yet, then_one, after_sweep-db,
}
use audistro_provider.Prelude.{◌↔◌}

-- The gauge of deferred announcements is what the status says.
abbrev Reports : Option Gauges → ℕ → Type 0
Reports none deferred = Unit
Reports (some g) deferred = g.deferred_announces ≡ deferred

abbrev pub IsReported : RunnerState → Type 0
IsReported s = Reports s.gauges s.status.deferred_announces_count

set_missing-deferred :
    (r : Option ℕ × Db) (g : Gauges) → (set_missing r g).0.deferred_announces ≡ g.deferred_announces
set_missing-deferred (none, d) g = refl
set_missing-deferred (some n, d) g = refl

report_rescan-Reports :
    (result : RescanResult) (g : Option Gauges) (db : Db) (deferred : ℕ)
    → Reports g deferred
    → Reports (report_rescan result g db).0 deferred
report_rescan-Reports result none db deferred h = h
report_rescan-Reports result (some g) db deferred h = set_missing-deferred (count_missing db) _ ∙ h

after_rescan-IsReported :
    (r : Option RescanResult × Db) (later : Instant) (s : RunnerState)
    → IsReported s
    → IsReported (after_rescan r later s)
unfolding set_last_rescan_at
after_rescan-IsReported (none, db) later s h = h
after_rescan-IsReported (some result, db) later s h =
    report_rescan-Reports result s.gauges db s.status.deferred_announces_count h

failed-Reports :
    (g : Option Gauges) (deferred : ℕ)
    → Reports g deferred
    → Reports (with_gauges (λ a. record a { failed_sweeps = suc a.failed_sweeps }) g) deferred
failed-Reports none deferred h = h
failed-Reports (some g) deferred h = h

succeeded-Reports :
    (g : Option Gauges) (deferred : ℕ)
    → Reports
        (with_gauges
          (λ a. record a { deferred_announces = deferred; ok_sweeps = suc a.ok_sweeps })
          g)
        deferred
succeeded-Reports none deferred = tt
succeeded-Reports (some g) deferred = refl

after_sweep-IsReported :
    (r : Bool × Sweep) (counted later : Instant) (s : RunnerState)
    → IsReported s
    → IsReported (after_sweep r counted later s)
unfolding set_last_announce_sweep
after_sweep-IsReported (false, w) counted later s h =
    failed-Reports s.gauges s.status.deferred_announces_count h
after_sweep-IsReported (true, w) counted later s h =
    succeeded-Reports s.gauges (count_deferred w.backoff counted)

Round-IsReported : (s t : RunnerState) → Round s t → IsReported s → IsReported t
unfolding rescan_round sweep_round cleanup_round
Round-IsReported s _ (rescans scan now later) h =
    after_rescan-IsReported (run_rescan_job scan now s.db) later s h
Round-IsReported s _ (sweeps env configured now counted later) h =
    after_sweep-IsReported (run_announce_sweep env now configured s.db s.backoff) counted later s h
Round-IsReported s _ (cleans grace now later) h = h

after_rescan-backoff :
    (r : Option RescanResult × Db) (later : Instant) (s : RunnerState)
    → (after_rescan r later s).backoff ≡ s.backoff
after_rescan-backoff (none, db) later s = refl
after_rescan-backoff (some result, db) later s = refl

Round-HasDistinctKeys :
    (s t : RunnerState)
    → Round s t
    → HasDistinctKeys s.backoff.entries
    → HasDistinctKeys t.backoff.entries
unfolding rescan_round sweep_round cleanup_round
Round-HasDistinctKeys s _ (rescans scan now later) h =
    rw (after_rescan-backoff (run_rescan_job scan now s.db) later s) h
Round-HasDistinctKeys s _ (sweeps env configured now counted later) h =
    rw ((after_sweep-db (run_announce_sweep env now configured s.db s.backoff) counted later s).1)
      (run_announce_sweep-HasDistinctKeys env now configured s.db s.backoff h)
Round-HasDistinctKeys s _ (cleans grace now later) h = h

Rounds-HasDistinctKeys :
    (s t : RunnerState)
    → Rounds s t
    → HasDistinctKeys s.backoff.entries
    → HasDistinctKeys t.backoff.entries
Rounds-HasDistinctKeys s _ none_yet keys = keys
Rounds-HasDistinctKeys s u (then_one {t = t} before last) keys =
    Round-HasDistinctKeys t u last (Rounds-HasDistinctKeys s t before keys)

-- However the rounds follow each other, the gauge of deferred announcements stays what the status
-- says, and the back-off keeps one entry for an asset.
pub Rounds-IsReported :
    (s t : RunnerState)
    → Rounds s t
    → IsReported s
    → HasDistinctKeys s.backoff.entries
    → IsReported t × HasDistinctKeys t.backoff.entries
Rounds-IsReported s _ none_yet h keys = (h, keys)
Rounds-IsReported s u (then_one {t = t} before last) h keys =
    let (h', keys') = Rounds-IsReported s t before h keys in
    (Round-IsReported t u last h', Round-HasDistinctKeys t u last keys')

swept_status :
    (r : Bool × Sweep) (counted later : Instant) (s : RunnerState)
    → r.0 ≡ true
    → (after_sweep r counted later s).status.deferred_announces_count
      ≡ count_deferred r.1.backoff counted
unfolding set_last_announce_sweep
swept_status (true, w) counted later s e = refl
swept_status (false, w) counted later s e = cc

-- After a round whose sweep succeeded, the status says that nothing is deferred exactly where every
-- asset may be attempted at the instant of the count, in every state that the rounds reach from one
-- whose back-off has one entry for an asset.
pub sweep_round-deferred_iff :
    (s t : RunnerState) (env : SweepEnv) (configured : Bool) (now counted later : Instant)
    → Rounds s t
    → HasDistinctKeys s.backoff.entries
    → (run_announce_sweep env now configured t.db t.backoff).0 ≡ true
    → ((sweep_round env configured now counted later t).status.deferred_announces_count ≡ 0) ↔ (
        (asset_id : Text)
        → can_attempt (sweep_round env configured now counted later t).backoff asset_id counted
          ≡ true)
unfolding sweep_round
sweep_round-deferred_iff s t env configured now counted later rounds keys ran =
    let r = run_announce_sweep env now configured t.db t.backoff in
    rw (swept_status r counted later t ran, (after_sweep-db r counted later t).1)
      (count_deferred-eq-zero_iff r.1.backoff counted (
        run_announce_sweep-HasDistinctKeys env now configured t.db t.backoff
          (Rounds-HasDistinctKeys s t rounds keys)))
