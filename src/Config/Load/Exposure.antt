-- ===== src/Config/Load/Exposure.antt =====
-- When config.go opens the internal API, and to whom.
use audistro_provider.Prelude.{
  ◌≡◌, refl, ◌⊎◌, inl, inr, ◌≢◌, Bool, true, false, ◌&&◌, Option, none, some, [], Text, text_eq,
  text_eq_iff, arith, codes, if◌then◌else◌,
}
use audistro_provider.Go.Strings.{trim_space, trim_left, trim_right}
use audistro_provider.Go.Strconv.{parse_bool}
use audistro_provider.Config.Validate.{Host, ok, validate, parse_cidrs}
use audistro_provider.Config.Validate.Valid.{validate-IsValid_iff}
use audistro_provider.Config.Load.{
  Environment, getenv, getenv_or_empty, getenv_bool, getenv_with_explicit, or_default, is_dev,
  known_name, load_env, load_internal_enable, load_internal_allowed_cidrs, load, explicit_bool,
  getenv_bool_with_explicit, explicit_text,
}

known_name-cases :
    (name : Text)
    → (known_name name ≡ codes "dev")
      ⊎ ((known_name name ≡ codes "test") ⊎ (known_name name ≡ codes "prod"))
known_name-cases name = ground (
  arith,
  text_eq_iff name (codes "dev"),
  text_eq_iff name (codes "test"),
  text_eq_iff name (codes "prod"),
)

-- The name of the environment is one of the three.
load-env :
    (env : Environment)
    → ((load env).env ≡ codes "dev")
      ⊎ (((load env).env ≡ codes "test") ⊎ ((load env).env ≡ codes "prod"))
unfolding load load_env
load-env env = known_name-cases _

or_default-true : (o : Option Bool) → or_default false o ≡ true → o ≡ some true
or_default-true none e = cc
or_default-true (some b) e = cc

getenv_bool-true :
    (env : Environment) (key : Text) (v : Text) (fallback : Bool)
    → env key ≡ some v
    → getenv_bool env key fallback ≡ true
    → (parse_bool v ≡ some true) ⊎ (fallback ≡ true)
unfolding getenv_bool getenv_or_empty getenv
getenv_bool-true env key v true at e = inr refl
getenv_bool-true env key v false at e =
    let read : (if text_eq v [] then false else or_default false (parse_bool v)) ≡ true =
      rw at at e in
    inl (or_default-true (parse_bool v) (ground arith))

explicit_bool-true :
    (env : Environment) (key : Text) (fallback : Bool) (o : Option Text)
    → env key ≡ o
    → (explicit_bool env key fallback o).0 ≡ true
    → ((v : Text) × (o ≡ some v) × (parse_bool v ≡ some true)) ⊎ (fallback ≡ true)
explicit_bool-true env key fallback none at e = inr e
explicit_bool-true env key fallback (some v) at e =
    elim (getenv_bool-true env key v fallback at e) [
      | inl parsed ↦ inl (v, refl, parsed)
      | inr by_default ↦ inr by_default
    ]

-- The internal API is open only where the environment says so, or is one for development or tests.
pub load-internal_enable :
    (env : Environment)
    → (load env).internal_enable ≡ true
    → ((v : Text) × (env (codes "PROVIDER_INTERNAL_ENABLE") ≡ some v) × (parse_bool v ≡ some true))
      ⊎ (((load env).env ≡ codes "dev") ⊎ ((load env).env ≡ codes "test"))
unfolding load load_internal_enable getenv_bool_with_explicit
load-internal_enable env e =
    elim (explicit_bool-true env _ _ (env (codes "PROVIDER_INTERNAL_ENABLE")) refl e) [
      | inl said ↦ inl said
      | inr named ↦ inr (
          ground (
            arith,
            text_eq_iff (load_env env) (codes "dev"),
            text_eq_iff (load_env env) (codes "test"),
          ))
    ]

-- The value that is given, or the networks of the loopback.
abbrev chosen : Option Text → Bool → Text
chosen o dev =
    let value = (explicit_text o).0 in
    if text_eq (trim_space value) [] && dev then codes "127.0.0.1/32,::1/128" else value

from_text :
    (o : Option Text) (dev : Bool)
    → dev ≡ false
    → trim_space (chosen o dev) ≢ []
    → o ≡ some (chosen o dev)
unfolding trim_space trim_left trim_right text_eq
from_text none false e filled = absurd (filled refl)
from_text (some v) false e filled = ground arith
from_text _ true e filled = cc

given_cidrs :
    (env : Environment)
    → (load env).env ≢ codes "dev"
    → trim_space (load env).internal_allowed_cidrs ≢ []
    → env (codes "PROVIDER_INTERNAL_ALLOWED_CIDRS") ≡ some (load env).internal_allowed_cidrs
unfolding load load_internal_allowed_cidrs getenv_with_explicit
given_cidrs env other filled =
    from_text (env (codes "PROVIDER_INTERNAL_ALLOWED_CIDRS")) (is_dev (load_env env))
      (ground (arith, text_eq_iff (load_env env) (codes "dev"))) filled

-- Outside development, an internal API that is open after Load and Validate is open to networks that
-- the environment lists: the list is there, is not blank, and parses.
pub load-validate-internal :
    {IpNet : Type 0} (env : Environment) (host : Host IpNet)
    → validate host (load env) ≡ ok tt
    → (load env).internal_enable ≡ true
    → (load env).env ≢ codes "dev"
    → (csv : Text) × (env (codes "PROVIDER_INTERNAL_ALLOWED_CIDRS") ≡ some csv)
      × (trim_space csv ≢ [])
      × (parse_cidrs host.parse_cidr csv ≢ none)
load-validate-internal env host valid enabled other =
    elim ((validate-IsValid_iff host (load env)).0 valid).networks.0 [
      | inl closed ↦ absurd cc
      | inr (filled, parsed) ↦
          ((load env).internal_allowed_cidrs, given_cidrs env other filled, filled, parsed)
    ]
