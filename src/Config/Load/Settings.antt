-- ===== src/Config/Load/Settings.antt =====
-- What the readers of config.go make of a value in the environment.
use audistro_provider.Prelude.{
  ◌≡◌, refl, inl, inr, ◌≢◌, ◌∷◌, All, false, some, [], Text, text_eq, text_eq_iff, codes,
  Bool-cases,
}
use audistro_provider.Go.Int64.{ℤ}
use audistro_provider.Go.Strings.{decimal}
use audistro_provider.Go.Strconv.{parse_int}
use audistro_provider.Go.Strconv.RoundTrip.{IsInt64, parse_int-decimal}
use audistro_provider.Config.Load.{
  Environment, getenv, getenv_or_empty, getenv_int, getenv_int64, load,
}

parse_int-nothing : (n : ℤ) → parse_int [] ≢ some n
unfolding parse_int
parse_int-nothing n = λ e. cc

decimal-filled : (n : ℤ) → IsInt64 n → text_eq (decimal n) [] ≡ false
decimal-filled n bound = elim (Bool-cases (text_eq (decimal n) [])) [
  | inr filled ↦ filled
  | inl empty ↦
      let same : decimal n ≡ [] = (text_eq_iff _ _).0 empty in
      let back : parse_int (decimal n) ≡ some n = parse_int-decimal n bound in
      absurd (parse_int-nothing n (rw same at back))
]

getenv_int-decimal :
    (env : Environment) (key : Text) (fallback n : ℤ)
    → IsInt64 n
    → env key ≡ some (decimal n)
    → getenv_int env key fallback ≡ n
unfolding getenv_int getenv_or_empty getenv
getenv_int-decimal env key fallback n bound e =
    rw (e, decimal-filled n bound, parse_int-decimal n bound) refl

getenv_int64-decimal :
    (env : Environment) (key : Text) (fallback n : ℤ)
    → IsInt64 n
    → env key ≡ some (decimal n)
    → getenv_int64 env key fallback ≡ n
unfolding getenv_int64 getenv_or_empty getenv
getenv_int64-decimal env key fallback n bound e =
    rw (e, decimal-filled n bound, parse_int-decimal n bound) refl

-- Limits that are 64-bit integers, in decimal in the environment under their names, are the limits
-- that Load gives: the size of a segment, the rate and the burst, the time to shut down, the number
-- of upstream requests.
pub load-decimal :
    (env : Environment) (segment rps burst shutdown upstream : ℤ)
    → All IsInt64 (segment ∷ rps ∷ burst ∷ shutdown ∷ upstream ∷ [])
    → env (codes "PROVIDER_MAX_SEGMENT_BYTES") ≡ some (decimal segment)
    → env (codes "PROVIDER_RATE_LIMIT_RPS") ≡ some (decimal rps)
    → env (codes "PROVIDER_RATE_LIMIT_BURST") ≡ some (decimal burst)
    → env (codes "PROVIDER_SHUTDOWN_TIMEOUT_SECONDS") ≡ some (decimal shutdown)
    → env (codes "PROVIDER_PROXY_MAX_UPSTREAM_CONCURRENCY") ≡ some (decimal upstream)
    → ((load env).max_segment_bytes ≡ segment)
      × ((load env).rate_limit_rps ≡ rps)
      × ((load env).rate_limit_burst ≡ burst)
      × ((load env).shutdown_timeout_seconds ≡ shutdown)
      × ((load env).proxy_max_upstream_concurrency ≡ upstream)
unfolding load
load-decimal env segment rps burst shutdown upstream (a, (b, (c, (d, (e, _))))) at_a at_b at_c at_d
      at_e =
    (
      getenv_int64-decimal env _ _ segment a at_a,
      getenv_int-decimal env _ _ rps b at_b,
      getenv_int-decimal env _ _ burst c at_c,
      getenv_int-decimal env _ _ shutdown d at_d,
      getenv_int-decimal env _ _ upstream e at_e,
    )
