-- ===== src/Jobs/Backoff.antt =====
-- internal/jobs/backoff.go: the retry delays of catalog announcements, per asset.
-- The mutex makes each method one step, so a method is a function on the state. `rand.Int63n` is
-- an argument: the draw that a call of it returns.
pub mod Delay
pub mod Record
use audistro_provider.Prelude.{
  ℕ, zero, suc, ◌+◌, ◌-◌, ◌*◌, ◌/◌, Bool, true, false, not, Option, none, some, List, [], ◌∷◌, Text,
  ltb, if◌then◌else◌, count,
}
use audistro_provider.Go.Int64.{ℤ, pos, negsuc, leb_ℤ, ltb_ℤ, ◌+ℤ◌, ◌*ℤ◌}
use audistro_provider.Go.Time.{Instant, Duration, add, after, millisecond, second, minute, hour}
use audistro_provider.Go.Map.{Map, lookup, insert, delete}

pub data ErrorClass : Type 0 where
  ok rejected unauthorized transient permanent : ErrorClass

-- `Jitter.Int63n`.
abbrev pub Jitter : Type 0
Jitter = ℤ → ℤ

pub record BackoffConfig : Type 0 where
  pub base : Duration
  pub max : Duration
  pub rejected_retry : Duration
  pub unauthorized_retry : Duration

-- `fail_count` counts events, and stays far below the range of int.
pub record BackoffEntry : Type 0 where
  pub fail_count : ℕ
  pub next_attempt_at : Instant

pub record BackoffState : Type 0 where
  pub entries : Map BackoffEntry
  pub cfg : BackoffConfig

abbrev default_if_unset : Duration → Duration → Duration
default_if_unset d v = if leb_ℤ d (pos 0) then v else d

-- The first lines of `NewBackoffState`.
unfoldable pub with_defaults : BackoffConfig → BackoffConfig
with_defaults cfg = record {
  base = default_if_unset cfg.base (pos (2 * second));
  max = default_if_unset cfg.max (pos (10 * minute));
  rejected_retry = default_if_unset cfg.rejected_retry (pos (24 * hour));
  unauthorized_retry = default_if_unset cfg.unauthorized_retry (pos hour);
}

unfoldable pub new_backoff_state : BackoffConfig → BackoffState
unfolding with_defaults
new_backoff_state cfg = record { entries = []; cfg = with_defaults cfg }

-- The fields of `config.Config` that set the delays.
pub record DelaySettings : Type 0 where
  pub backoff_base_millis : ℤ
  pub backoff_max_seconds : ℤ
  pub rejected_retry_seconds : ℤ
  pub unauthorized_retry_seconds : ℤ

unfoldable pub new_backoff_state_from_config : DelaySettings → BackoffState
unfolding new_backoff_state
new_backoff_state_from_config s = new_backoff_state (record {
  base = s.backoff_base_millis *ℤ pos millisecond;
  max = s.backoff_max_seconds *ℤ pos second;
  rejected_retry = s.rejected_retry_seconds *ℤ pos second;
  unauthorized_retry = s.unauthorized_retry_seconds *ℤ pos second;
})

abbrev may_attempt : Option BackoffEntry → Instant → Bool
may_attempt none now = true
may_attempt (some entry) now = not (after entry.next_attempt_at now)

unfoldable pub can_attempt : BackoffState → Text → Instant → Bool
can_attempt b asset_id now = may_attempt (lookup asset_id b.entries) now

unfoldable pub count_deferred : BackoffState → Instant → ℕ
count_deferred b now = count (λ e. after e.1.next_attempt_at now) b.entries

-- `for i := 1; i < failCount; i++`, by the rounds left. The doubling is that of int64.
unfoldable pub double_until : Duration → ℕ → Duration → Duration
double_until max zero delay = delay
double_until max (suc rounds) delay =
    let doubled = delay +ℤ delay in
    let rest = double_until max rounds doubled in
    if leb_ℤ max delay then max else if ltb_ℤ max doubled then max else rest

-- `delay / 4`, which Go truncates towards 0.
abbrev pub quarter : Duration → Duration
quarter (pos d) = pos (d / 4)
quarter (negsuc d) = if ltb (suc d) 4 then pos 0 else negsuc (suc d / 4 - 1)

unfoldable pub with_jitter : Jitter → Duration → Duration
with_jitter draw delay =
    let window = quarter delay in
    if ltb_ℤ (pos 0) window then delay +ℤ draw (window +ℤ pos 1) else delay

-- `NextAttempt`; a count below 1 is read as 1.
unfoldable pub next_delay : BackoffConfig → Jitter → ℕ → Duration
unfolding double_until with_jitter
next_delay cfg draw fail_count =
    let delay = with_jitter draw (double_until cfg.max (fail_count - 1) cfg.base) in
    if ltb_ℤ cfg.max delay then cfg.max else delay

unfoldable pub next_attempt : BackoffConfig → Jitter → Instant → ℕ → Instant
unfolding next_delay
next_attempt cfg draw now fail_count = add now (next_delay cfg draw fail_count)

-- `entry := b.entries[assetID]` reads the zero entry of a missing key.
abbrev fails_of : Option BackoffEntry → ℕ
fails_of none = 0
fails_of (some entry) = entry.fail_count

abbrev put : BackoffState → Text → ℕ → Instant → BackoffState
put b asset_id fails at = record b {
  entries = insert asset_id (record { fail_count = fails; next_attempt_at = at }) b.entries;
}

-- `Record`; `default` is the case of `ClassTransient`.
unfoldable pub record_class : BackoffState → Jitter → Text → ErrorClass → Instant → BackoffState
unfolding next_attempt
record_class b draw asset_id ok now = record b { entries = delete asset_id b.entries }
record_class b draw asset_id rejected now = put b asset_id 0 (add now b.cfg.rejected_retry)
record_class b draw asset_id unauthorized now = put b asset_id 0 (add now b.cfg.unauthorized_retry)
record_class b draw asset_id permanent now =
    put b asset_id (fails_of (lookup asset_id b.entries) + 1) (add now b.cfg.max)
record_class b draw asset_id transient now =
    let fails = fails_of (lookup asset_id b.entries) + 1 in
    put b asset_id fails (next_attempt b.cfg draw now fails)
