-- ===== src/Jobs/Backoff/Delay.antt =====
-- The delay of a repeated failure, backoff.go.
use native.Mathlib.Nat.{pow-suc}
use audistro_provider.Prelude.{
  ℕ, zero, suc, ◌+◌, ◌-◌, ◌*◌, ◌/◌, ◌^◌, ◌≤◌, ◌<◌, ◌≡◌, refl, min, arith, inl, inr, leb, ltb,
  Bool-cases, if◌then◌else◌,
}
use audistro_provider.Go.Int64.{pos, +ℤ-pos}
use audistro_provider.Jobs.Backoff.{
  Jitter, BackoffConfig, double_until, with_jitter, next_delay, next_attempt,
}

mul-pow-suc : (d k : ℕ) → d * 2 ^ suc k ≡ (d + d) * 2 ^ k
mul-pow-suc d k = rw (pow-suc 2 k) (omega arith)

le-mul-pow : (d k : ℕ) → d ≤ d * 2 ^ k
le-mul-pow d zero = omega arith
le-mul-pow d (suc k) = omega (arith, mul-pow-suc d k, le-mul-pow (d + d) k)

-- One round, with no overflow.
double_until-suc :
    (max rounds delay : ℕ)
    → delay < 2 ^ 62
    → double_until (pos max) (suc rounds) (pos delay) ≡ (
        if leb max delay
        then pos max
        else if ltb max (delay + delay)
        then pos max
        else double_until (pos max) rounds (pos (delay + delay)))
unfolding double_until
double_until-suc max rounds delay fits = rw (+ℤ-pos delay delay (omega arith)) (ground arith)

-- The loop doubles up to the cap: what it leaves and `delay * 2 ^ rounds` have one minimum with it.
double_until-min :
    (max rounds delay : ℕ)
    → max < 2 ^ 62
    → delay < 2 ^ 62
    → (r : ℕ) × (double_until (pos max) rounds (pos delay) ≡ pos r)
      × (r < 2 ^ 62)
      × (min r max ≡ min (delay * 2 ^ rounds) max)
double_until-min max zero delay small fits = (delay, unfold double_until in refl, fits, omega arith)
double_until-min max (suc rounds) delay small fits = elim (Bool-cases (leb max delay)) [
  | inl capped ↦ (
    max,
    rw (double_until-suc max rounds delay fits) (ground arith),
    small,
    ground (arith, mul-pow-suc delay rounds, le-mul-pow (delay + delay) rounds),
  )
  | inr below ↦ elim (Bool-cases (ltb max (delay + delay))) [
    | inl over ↦ (
      max,
      rw (double_until-suc max rounds delay fits) (ground arith),
      small,
      ground (arith, mul-pow-suc delay rounds, le-mul-pow (delay + delay) rounds),
    )
    | inr under ↦
        let (r, stops, less, same) =
          double_until-min max rounds (delay + delay) small (ground arith) in
        (
          r,
          rw (double_until-suc max rounds delay fits) (ground arith),
          less,
          ground (arith, mul-pow-suc delay rounds),
        )
  ]
]

-- `Int63n(n)` lies in [0, n) for a positive n: what package math/rand documents.
abbrev pub IsLawful : Jitter → Type 0
IsLawful draw = (n : ℕ) → 0 < n → (r : ℕ) × (draw (pos n) ≡ pos r) × (r < n)

with_jitter_bounds :
    (draw : Jitter) (r : ℕ)
    → IsLawful draw
    → r < 2 ^ 62
    → (d : ℕ) × (with_jitter draw (pos r) ≡ pos d) × (r ≤ d) × (d ≤ r + r / 4)
unfolding with_jitter
with_jitter_bounds draw r lawful fits = elim (Bool-cases (ltb 0 (r / 4))) [
  | inl wide ↦
      let (extra, drawn, less) = lawful (r / 4 + 1) (omega arith) in
      (
        r + extra,
        rw (+ℤ-pos (r / 4) 1 (omega arith), drawn, +ℤ-pos r extra (omega arith)) (ground arith),
        omega arith,
        omega arith,
      )
  | inr narrow ↦ (r, ground arith, omega arith, omega arith)
]

module _ (cfg : BackoffConfig) (draw : Jitter) (base max : ℕ) (starts : cfg.base ≡ pos base)
    (caps : cfg.max ≡ pos max) (base_fits : base < 2 ^ 62) (max_fits : max < 2 ^ 62)
    (lawful : IsLawful draw) where
  pub next_delay_bounds :
      (n : ℕ)
      → (d : ℕ) × (next_delay cfg draw n ≡ pos d)
        × (min (base * 2 ^ (n - 1)) max ≤ d)
        × (d ≤ min (base * 2 ^ (n - 1)) max + min (base * 2 ^ (n - 1)) max / 4)
        × (d ≤ max)
  unfolding next_delay
  next_delay_bounds n =
      let (r, loops, fits, same) = double_until-min max (n - 1) base max_fits base_fits in
      let (d, jitters, low, high) = with_jitter_bounds draw r lawful fits in
      (
        min d max,
        rw (starts, caps, loops, jitters) (ground arith),
        omega arith,
        omega arith,
        omega arith,
      )

  -- The n-th failure in a row is retried after the exponential delay, min (base * 2 ^ (n - 1)) max,
  -- and at most a quarter more of it, and never after more than `max`: for a base and a cap that
  -- are not negative and below 2 ^ 62 nanoseconds, and a draw in the range that `Int63n` documents.
  pub next_attempt_bounds :
      (now n : ℕ)
      → (now + min (base * 2 ^ (n - 1)) max ≤ next_attempt cfg draw now n)
        × (next_attempt cfg draw now n
            ≤ now + (min (base * 2 ^ (n - 1)) max + min (base * 2 ^ (n - 1)) max / 4))
        × (next_attempt cfg draw now n ≤ now + max)
  unfolding next_attempt
  next_attempt_bounds now n =
      let (d, delays, low, high, cap) = next_delay_bounds n in
      rw delays (omega arith, omega arith, omega arith)
