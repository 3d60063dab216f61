-- ===== src/Go/Time.antt =====
-- Package time. An instant is the number of nanoseconds since the start of year 1 UTC, so the zero
-- `time.Time` is 0. A duration is a signed 64-bit number of nanoseconds.
use audistro_provider.Prelude.{ℕ, suc, ◌+◌, ◌-◌, ◌*◌, ◌/◌, Bool, arith, ltb, ◌==◌, ◌≡◌}
use audistro_provider.Go.Int64.{ℤ, pos, negsuc, sub_ℕ}

abbrev pub Instant : Type 0
Instant = ℕ

abbrev pub Duration : Type 0
Duration = ℤ

abbrev pub nanosecond : ℕ
nanosecond = 1

abbrev pub millisecond : ℕ
millisecond = 1_000_000

abbrev pub second : ℕ
second = 1_000_000_000

-- The second with which year 10000 begins: the RFC 3339 texts of the instants before it parse, and
-- their byte order is that of the times.
unfoldable pub year_10000 : ℕ
year_10000 = 315_537_897_600

abbrev pub minute : ℕ
minute = 60 * second

abbrev pub hour : ℕ
hour = 60 * minute

-- t.Add(d); the clock never stands so close to year 1 that a difference would pass below it.
abbrev pub add : Instant → Duration → Instant
add t (pos d) = t + d
add t (negsuc d) = t - suc d

-- t.After(u), t.Before(u) and t.IsZero().
abbrev pub after : Instant → Instant → Bool
after t u = ltb u t

abbrev pub before : Instant → Instant → Bool
before t u = ltb t u

abbrev pub is_zero : Instant → Bool
is_zero t = t == 0

-- Seconds from the start of year 1 to 1970.
abbrev pub unix_epoch : ℕ
unix_epoch = 62_135_596_800

-- t.Unix(), which drops the fraction of a second.
abbrev pub unix : Instant → ℤ
unix t = sub_ℕ (t / second) unix_epoch

-- time.Unix(s, 0).
abbrev pub of_unix : ℤ → Instant
of_unix (pos s) = (unix_epoch + s) * second
of_unix (negsuc s) = (unix_epoch - suc s) * second

-- Reading the seconds back gives the instant to the second.
pub of_unix-unix : (t : Instant) → of_unix (unix t) ≡ t / second * second
of_unix-unix t = ground arith
