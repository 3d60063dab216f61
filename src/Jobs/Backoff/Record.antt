-- ===== src/Jobs/Backoff/Record.antt =====
-- What `Record` changes, and what `CanAttempt` and `CountDeferred` see of it, backoff.go.
use audistro_provider.Prelude.{
  ℕ, ◌+◌, ◌≡◌, refl, ◌↔◌, Bool, true, false, Option, none, some, [], ◌∷◌, arith, Text, text_eq,
  text_eq_iff, text_eq_refl, if◌then◌else◌, ltb, count, Bool-cases, inl, inr,
}
use audistro_provider.Go.Time.{Instant, after, add}
use audistro_provider.Go.Map.{
  Map, HasDistinctKeys, HasDistinctKeys-insert, HasDistinctKeys-delete, lookup, lookup-insert,
  lookup-delete,
}
use audistro_provider.Jobs.Backoff.{
  ErrorClass, ok, rejected, unauthorized, permanent, transient, Jitter, BackoffConfig, BackoffEntry,
  BackoffState, can_attempt, count_deferred, next_attempt, fails_of, may_attempt, put, record_class,
}

-- When an asset may be announced again after a failure of each class, `fails` being the number of
-- failures since it last had none.
abbrev pub retry_at : BackoffConfig → Jitter → ErrorClass → ℕ → Instant → Option Instant
retry_at cfg draw ok fails now = none
retry_at cfg draw rejected fails now = some (add now cfg.rejected_retry)
retry_at cfg draw unauthorized fails now = some (add now cfg.unauthorized_retry)
retry_at cfg draw permanent fails now = some (add now cfg.max)
retry_at cfg draw transient fails now = some (next_attempt cfg draw now (fails + 1))

abbrev pub is_due : Option Instant → Instant → Bool
is_due none t = true
is_due (some at) t = if ltb t at then false else true

can_attempt-put :
    (b : BackoffState) (asset_id other : Text) (fails : ℕ) (at t : Instant)
    → can_attempt (put b asset_id fails at) other t
      ≡ (if text_eq asset_id other then is_due (some at) t else can_attempt b other t)
unfolding can_attempt
can_attempt-put b asset_id other fails at t = rw lookup-insert (ground arith)

-- After an outcome is recorded for an asset at `now`, that asset may be attempted at `t` exactly
-- when the retry instant of the outcome's class is not after `t`, and at once after a success;
-- whether any other asset may be attempted is as before.
pub can_attempt-record_class :
    (b : BackoffState) (draw : Jitter) (asset_id other : Text) (class : ErrorClass)
    (now t : Instant)
    → can_attempt (record_class b draw asset_id class now) other t ≡ (
        if text_eq asset_id other
        then is_due (retry_at b.cfg draw class (fails_of (lookup asset_id b.entries)) now) t
        else can_attempt b other t)
unfolding can_attempt record_class
can_attempt-record_class b draw asset_id other ok now t = rw lookup-delete (ground arith)
can_attempt-record_class b draw asset_id other class now t = can_attempt-put b asset_id other _ _ t

-- `Record` keeps one entry for a key, and never changes the configuration.
pub record_class-HasDistinctKeys :
    (b : BackoffState) (draw : Jitter) (asset_id : Text) (class : ErrorClass) (now : Instant)
    → HasDistinctKeys b.entries
    → HasDistinctKeys (record_class b draw asset_id class now).entries
      × ((record_class b draw asset_id class now).cfg ≡ b.cfg)
unfolding record_class
record_class-HasDistinctKeys b draw asset_id ok now h =
    (HasDistinctKeys-delete asset_id b.entries h, refl)
record_class-HasDistinctKeys b draw asset_id class now h =
    (HasDistinctKeys-insert asset_id _ b.entries h, refl)

module _ (t : Instant) where
  may_attempt_of_count :
      (m : Map BackoffEntry) (asset_id : Text)
      → count (λ e. after e.1.next_attempt_at t) m ≡ 0
      → may_attempt (lookup asset_id m) t ≡ true
  unfolding lookup
  may_attempt_of_count [] asset_id h = refl
  may_attempt_of_count ((k, e) ∷ m) asset_id h = ground (arith, may_attempt_of_count m asset_id)

  may_attempt-tail :
      (k : Text) (e : BackoffEntry) (m : Map BackoffEntry) (asset_id : Text)
      → lookup k m ≡ none
      → may_attempt (lookup asset_id ((k, e) ∷ m)) t ≡ true
      → may_attempt (lookup asset_id m) t ≡ true
  unfolding lookup
  may_attempt-tail k e m asset_id free h = elim (Bool-cases (text_eq k asset_id)) [
    | inl same ↦ let eq : k ≡ asset_id = (text_eq_iff _ _).0 same in rw (← eq, free) refl
    | inr other ↦ ground arith
  ]

  count_of_may_attempt :
      (m : Map BackoffEntry)
      → HasDistinctKeys m
      → ((asset_id : Text) → may_attempt (lookup asset_id m) t ≡ true)
      → count (λ e. after e.1.next_attempt_at t) m ≡ 0
  unfolding lookup
  count_of_may_attempt [] h all_free = refl
  count_of_may_attempt ((k, e) ∷ m) (free, h) all_free = ground (
    arith,
    all_free k,
    text_eq_refl k,
    count_of_may_attempt m h (λ asset_id. may_attempt-tail k e m asset_id free (all_free asset_id)),
  )

-- `CountDeferred` agrees with `CanAttempt` where the map holds each key once, as a Go map does: it
-- is 0 at an instant exactly when every asset may be attempted then.
pub count_deferred-eq-zero_iff :
    (b : BackoffState) (t : Instant)
    → HasDistinctKeys b.entries
    → (count_deferred b t ≡ 0) ↔ ((asset_id : Text) → can_attempt b asset_id t ≡ true)
unfolding count_deferred can_attempt
count_deferred-eq-zero_iff b t h = (
  (λ zero asset_id. may_attempt_of_count t b.entries asset_id zero),
  (λ all_free. count_of_may_attempt t b.entries h all_free),
)
