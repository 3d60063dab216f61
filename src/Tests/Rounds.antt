-- ===== src/Tests/Rounds.antt =====
-- Runs of the job runner and of the handlers that write to the tables.
use audistro_provider.Prelude.{
  suc, ◌+◌, ◌≡◌, refl, ◌↔◌, true, false, some, [], ◌∷◌, Text, any, text_eq, Bool-cases, inl, inr,
}
use audistro_provider.Go.Map.{lookup}
use audistro_provider.Repository.Db.{active}
use audistro_provider.Repository.Changes.{IsIntact, Keeps}
use audistro_provider.Repository.Assets.{list_active_asset_ids}
use audistro_provider.Go.Strings.{trim_space}
use audistro_provider.Jobs.Backoff.{can_attempt}
use audistro_provider.Jobs.Sweep.{run_announce_sweep}
use audistro_provider.Jobs.Runner.{
  RunnerState, new_status, rescan_round, sweep_round, ticked, done, run_periodic,
}
use audistro_provider.Jobs.Runner.Loop.{is_done, ticks, rounds, run_periodic-rounds}
use audistro_provider.Jobs.Runner.Rounds.{Rounds, none_yet, then_one, rescans, Rounds-IsIntact}
use audistro_provider.Jobs.Runner.Reported.{sweep_round-deferred_iff}
use audistro_provider.Catalog.HealthState.{new_health_state}
use audistro_provider.Catalog.Signing.{is_blank}
use audistro_provider.Catalog.Client.{answered, decoded}
use audistro_provider.Internalapi.Announce.{AnnounceEnv, handle_announce, end_of_file}
use audistro_provider.Internalapi.Announce.Stored.{outcome, handle_announce-HasStatus}
use audistro_provider.Repository.Announcements.Quiet.{HasStatus}
use audistro_provider.Tests.Fixtures.{talk, noon, row_in, song_scan, talk_db, no_failures, agreeing}

-- A runner that has just started, over a database that knows the talk.
abbrev fresh : RunnerState
fresh = record {
  db = talk_db active;
  backoff = no_failures;
  status = new_status true;
  gauges = some (record {
    active_assets = 0;
    missing_assets = 0;
    deferred_announces = 0;
    ok_sweeps = 0;
    failed_sweeps = 0;
  });
}

abbrev rescanned : RunnerState
rescanned = rescan_round (some song_scan) noon noon fresh

one_rescan : Rounds fresh rescanned
one_rescan = then_one none_yet (rescans (some song_scan) noon noon)

-- The talk is the only asset and the only announcement.
talk-IsIntact : IsIntact (talk_db active)
unfolding lookup
talk-IsIntact = record {
  asset_keys = (refl, tt);
  announcement_keys = (refl, tt);
  references = λ id. elim (Bool-cases (text_eq talk id)) [
    | inl same ↦ inr (row_in active, rw same refl)
    | inr other ↦ inl (rw other refl)
  ];
}

rounds_example : IsIntact rescanned.db × Keeps fresh.db rescanned.db
rounds_example = Rounds-IsIntact fresh rescanned one_rescan talk-IsIntact

sweep_succeeds : (run_announce_sweep agreeing noon true fresh.db fresh.backoff).0 ≡ true
unfolding run_announce_sweep list_active_asset_ids
sweep_succeeds = refl

deferred_example :
    ((sweep_round agreeing true noon noon noon fresh).status.deferred_announces_count ≡ 0) ↔ (
      (asset_id : Text)
      → can_attempt (sweep_round agreeing true noon noon noon fresh).backoff asset_id noon ≡ true)
deferred_example =
    sweep_round-deferred_iff fresh fresh agreeing true noon noon noon none_yet tt sweep_succeeds

periodic_example :
    ((run_periodic (λ n s. s + n) (ticked ∷ done ∷ []) 5).0
      ≡ rounds (λ n s. s + n) 0 (suc (ticks (ticked ∷ done ∷ []))) 5)
    × ((run_periodic (λ n s. s + n) (ticked ∷ done ∷ []) 5).1 ≡ any is_done (ticked ∷ done ∷ []))
periodic_example = run_periodic-rounds (λ n s. s + n) (ticked ∷ done ∷ []) 5

abbrev requests : AnnounceEnv
requests = record {
  announcer = agreeing.announcer;
  has_client = true;
  crypto = agreeing.crypto;
  reply = λ req. answered 200 decoded;
}

has_public_url : is_blank requests.announcer.public_base_url ≡ false
unfolding trim_space
has_public_url = refl

announce-HasStatus_example :
    HasStatus talk
      (outcome requests noon talk)
      (handle_announce requests noon true end_of_file
        (talk_db active)
        (some (new_health_state true))).1.db
unfolding lookup text_eq
announce-HasStatus_example =
    handle_announce-HasStatus requests noon (talk_db active) (some (new_health_state true))
      end_of_file talk (row_in active) refl has_public_url refl refl (refl, tt) refl refl
