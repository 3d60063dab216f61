-- ===== src/Internalapi/Rescan.antt =====
-- internal/internalapi/rescan_handler.go: the rescan on request, which does what the job does.
use audistro_provider.Prelude.{
  ℕ, ◌≡◌, refl, Bool, not, Option, none, some, Text, codes, map, if◌then◌else◌,
}
use mathlib.Core.Option
use audistro_provider.Go.Time.{Instant}
use audistro_provider.Scanner.{ScanResult}
use audistro_provider.Repository.Db.{Db, Query, continue}
use audistro_provider.Repository.Assets.{upsert_assets, mark_missing, count_active}
use audistro_provider.Jobs.Rescan.{
  RescanResult, RescanResponse, run_rescan, run_rescan_job, to_record, seen_ids,
}

pub data RescanAnswer : Type 0 where
  error_json : ℕ → Text → RescanAnswer
  response_json : RescanResponse → RescanAnswer

abbrev answer : Option RescanResponse × Db → RescanAnswer × Db
answer (none, db) = (error_json 500 (codes "rescan_failed"), db)
answer (some resp, db) = (response_json resp, db)

-- The handler of `NewRescanHandler`; `is_post` says that the method is POST.
unfoldable pub handle_rescan : Bool → Option ScanResult → Instant → Db → RescanAnswer × Db
handle_rescan is_post scan now db =
    if not is_post
    then (error_json 405 (codes "method_not_allowed"), db)
    else answer (run_rescan scan now db)

-- Chains whose ends differ in what they make of the result.
continue-map :
    {A B C : Type 0} (r : Option A × Db) (f : A → Query B) (g : A → Query C) (p : C → B)
    → ((a : A) (d : Db) → f a d ≡ (Option.map p (g a d).0, (g a d).1))
    → continue r f ≡ (Option.map p (continue r g).0, (continue r g).1)
continue-map (none, db) f g p h = refl
continue-map (some a, db) f g p h = h a db

-- The counts of a response.
abbrev pub counts_of : RescanResponse → RescanResult
counts_of r = record {
  scanned_assets = r.scanned_assets;
  active_assets = r.active_assets;
  missing_assets = r.missing_assets;
}

-- The rescan on request does to the tables what the job does, fails where the job fails, and answers
-- the counts that the job reports.
pub run_rescan_job-run_rescan :
    (scan : Option ScanResult) (now : Instant) (db : Db)
    → run_rescan_job scan now db
      ≡ (Option.map counts_of (run_rescan scan now db).0, (run_rescan scan now db).1)
unfolding run_rescan_job run_rescan
run_rescan_job-run_rescan none now db = refl
run_rescan_job-run_rescan (some scan) now db =
    continue-map (upsert_assets (map to_record scan.assets) now db) _ _ counts_of (λ _ d.
      continue-map (mark_missing (seen_ids scan.assets) now d) _ _ counts_of
        (λ missing e. continue-map (count_active e) _ _ counts_of (λ active f. refl)))
