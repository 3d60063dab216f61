-- ===== src/Jobs/Runner/Loop.antt =====
-- How often a loop of runner.go runs its job, and when it returns.
use audistro_provider.Prelude.{
  ℕ, zero, suc, ◌≡◌, refl, Bool, true, false, List, [], ◌∷◌, arith, any,
}
use audistro_provider.Go.Int64.{ℤ, pos, ◌<ℤ◌}
use audistro_provider.Jobs.Runner.{Event, ticked, done, wait, run_periodic, interval_of}

abbrev pub is_done : Event → Bool
is_done done = true
is_done ticked = false

-- The ticks before the context ends.
abbrev pub ticks : List Event → ℕ
ticks [] = 0
ticks (done ∷ events) = 0
ticks (ticked ∷ events) = suc (ticks events)

-- The first `n` rounds of a job from round `i`, one after the other.
abbrev pub rounds {ℓ} : {S : Type ℓ} → (ℕ → S → S) → ℕ → ℕ → S → S
rounds job i zero s = s
rounds job i (suc n) s = rounds job (suc i) n (job i s)

module _ {ℓ} {S : Type ℓ} (job : ℕ → S → S) where
  wait-rounds :
      (i : ℕ) (events : List Event) (s : S)
      → (wait job i events s).0 ≡ rounds job i (ticks events) s
  unfolding wait
  wait-rounds i [] s = refl
  wait-rounds i (done ∷ events) s = refl
  wait-rounds i (ticked ∷ events) s = wait-rounds (suc i) events (job i s)

  wait-returned :
      (i : ℕ) (events : List Event) (s : S) → (wait job i events s).1 ≡ any is_done events
  unfolding wait
  wait-returned i [] s = refl
  wait-returned i (done ∷ events) s = refl
  wait-returned i (ticked ∷ events) s = wait-returned (suc i) events (job i s)

  -- A loop runs its job once at the start and once for each tick before the context ends, one round
  -- after the other, and it returns exactly where the context ends.
  pub run_periodic-rounds :
      (events : List Event) (s : S)
      → ((run_periodic job events s).0 ≡ rounds job 0 (suc (ticks events)) s)
        × ((run_periodic job events s).1 ≡ any is_done events)
  unfolding run_periodic
  run_periodic-rounds events s = (wait-rounds 1 events (job 0 s), wait-returned 1 events (job 0 s))

-- The interval of a loop is positive, whatever the setting, so that the ticker can be made.
pub interval_of-positive : (seconds : ℤ) → pos 0 <ℤ interval_of seconds
unfolding interval_of
interval_of-positive seconds = ground arith
