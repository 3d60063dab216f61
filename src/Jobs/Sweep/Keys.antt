-- ===== src/Jobs/Sweep/Keys.antt =====
-- A sweep of announce_sweep.go keeps one entry of the back-off for an asset.
use audistro_provider.Prelude.{
  Bool, true, false, not, Option, none, some, List, [], ◌∷◌, Text, split_if,
}
use audistro_provider.Go.Time.{Instant}
use audistro_provider.Go.Map.{HasDistinctKeys}
use audistro_provider.Repository.Db.{Db}
use audistro_provider.Repository.Assets.{list_active_asset_ids}
use audistro_provider.Repository.Announcements.{AnnouncementRow}
use audistro_provider.Catalog.Client.{AnnounceRequest}
use audistro_provider.Jobs.Backoff.{BackoffState, can_attempt}
use audistro_provider.Jobs.Backoff.Record.{record_class-HasDistinctKeys}
use audistro_provider.Jobs.Sweep.{
  SweepEnv, Sweep, needs_reannounce, threshold, fail_to_build, settle, attempt, on_request, on_row,
  sweep_one, sweep_all, start, on_ids, run_announce_sweep,
}

abbrev IsKeyed : Sweep → Type 0
IsKeyed w = HasDistinctKeys w.backoff.entries

module _ (env : SweepEnv) (now : Instant) where
  on_request-IsKeyed :
      (id : Text) (req : Option AnnounceRequest) (w : Sweep)
      → IsKeyed w
      → IsKeyed (on_request env now id req w)
  unfolding fail_to_build settle
  on_request-IsKeyed id none w h = (record_class-HasDistinctKeys w.backoff _ id _ now h).0
  on_request-IsKeyed id (some req) w h = (record_class-HasDistinctKeys w.backoff _ id _ now h).0

  on_row-IsKeyed :
      (id : Text) (row : Option (Option AnnouncementRow)) (w : Sweep)
      → IsKeyed w
      → IsKeyed (on_row env now id row w)
  unfolding on_row attempt
  on_row-IsKeyed id none w h = h
  on_row-IsKeyed id (some row) w h =
      split_if IsKeyed (not (needs_reannounce row (threshold env now))) (λ e. h)
        (λ e.
          split_if IsKeyed (not (can_attempt w.backoff id now)) (λ e'. h)
            (λ e'. on_request-IsKeyed id _ _ h))

  sweep_all-IsKeyed : (ids : List Text) (w : Sweep) → IsKeyed w → IsKeyed (sweep_all env now ids w)
  unfolding sweep_all sweep_one
  sweep_all-IsKeyed [] w h = h
  sweep_all-IsKeyed (id ∷ ids) w h =
      sweep_all-IsKeyed ids (sweep_one env now id w) (on_row-IsKeyed id _ _ h)

  on_ids-IsKeyed :
      (r : Option (List Text) × Db) (backoff : BackoffState)
      → HasDistinctKeys backoff.entries
      → IsKeyed (on_ids env now r backoff).1
  on_ids-IsKeyed (none, db) backoff h = h
  on_ids-IsKeyed (some ids, db) backoff h = sweep_all-IsKeyed ids (start env now db backoff) h

  pub run_announce_sweep-HasDistinctKeys :
      (configured : Bool) (db : Db) (backoff : BackoffState)
      → HasDistinctKeys backoff.entries
      → HasDistinctKeys (run_announce_sweep env now configured db backoff).1.backoff.entries
  unfolding run_announce_sweep
  run_announce_sweep-HasDistinctKeys false db backoff h = h
  run_announce_sweep-HasDistinctKeys true db backoff h =
      on_ids-IsKeyed (list_active_asset_ids db) backoff h
