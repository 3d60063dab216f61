-- ===== src/Envcheck.antt =====
-- internal/envcheck/envcheck.go: the check of the environment before the start in production. The
-- schema that loadSchema reads and the regular expressions are arguments.
use audistro_provider.Prelude.{
  ◌≡◌, refl, ◌≢◌, ◌↔◌, ◌⊎◌, Bool, true, false, not, ◌&&◌, Option, none, some, List, [], ◌∷◌, Text,
  codes, text_eq, text_eq_iff, arith, All, if◌then◌else◌,
}
use audistro_provider.Go.Strings.{trim_space}
use audistro_provider.Config.Load.{Environment, getenv_or_empty}

pub record SchemaKey : Type 0 where
  pub key : Text
  pub required_in_prod : Bool
  pub pattern : Text

pub data EnvError : Type 0 where
  invalid_env schema_unreadable : EnvError
  missing_required invalid_schema invalid_value : Text → EnvError

-- regexp.MatchString of a pattern and a text; `none` is an error of the pattern.
abbrev pub Matcher : Type 0
Matcher = Text → Text → Option Bool

module _ (match_string : Matcher) (env : Environment) where
  abbrev of_match : Text → Option Bool → Option EnvError
  of_match key none = some (invalid_schema key)
  of_match key (some false) = some (invalid_value key)
  of_match key (some true) = none

  abbrev of_value : SchemaKey → Option Text → Option EnvError
  of_value k none = some (missing_required k.key)
  of_value k (some value) =
      if text_eq (trim_space value) []
      then some (missing_required k.key)
      else of_match k.key (match_string k.pattern value)

  abbrev pub check_key : SchemaKey → Option EnvError
  check_key k = if not k.required_in_prod then none else of_value k (env k.key)

  abbrev pub or_else : Option EnvError → Option EnvError → Option EnvError
  or_else (some e) later = some e
  or_else none later = later

  unfoldable pub check_keys : List SchemaKey → Option EnvError
  check_keys [] = none
  check_keys (k ∷ keys) = or_else (check_key k) (check_keys keys)

  abbrev of_schema : Option (List SchemaKey) → Option EnvError
  of_schema none = some schema_unreadable
  of_schema (some keys) = check_keys keys

  -- `Validate`; `none` is no error.
  unfoldable pub validate : Option (List SchemaKey) → Option EnvError
  unfolding check_keys
  validate schema =
      let mode = trim_space (getenv_or_empty env (codes "AUDISTRO_ENV")) in
      if text_eq mode []
      then none
      else if not (text_eq mode (codes "prod"))
          && not (text_eq mode (codes "dev"))
          && not (text_eq mode (codes "test"))
      then some invalid_env
      else if not (text_eq mode (codes "prod"))
      then none
      else of_schema schema

  -- A key that is not required, or one whose value is there, not blank, and matches.
  abbrev pub IsMet : SchemaKey → Type 0
  IsMet k =
      (k.required_in_prod ≡ false)
      ⊎ ((value : Text) × (env k.key ≡ some value)
          × (trim_space value ≢ [])
          × (match_string k.pattern value ≡ some true))

  of_match-none : (key : Text) (r : Option Bool) → (of_match key r ≡ none) ↔ (r ≡ some true)
  of_match-none key none = ground arith
  of_match-none key (some false) = ground arith
  of_match-none key (some true) = ground arith

  of_value-none :
      (k : SchemaKey) (o : Option Text)
      → (of_value k o ≡ none) ↔ (
          (value : Text) × (o ≡ some value)
          × (trim_space value ≢ [])
          × (match_string k.pattern value ≡ some true))
  of_value-none k none = ((λ e. cc), (λ h. cc))
  of_value-none k (some value) = (
    (λ e. let (filled, matched) = both.0 e in (value, refl, filled, matched)),
    (λ (x, same, filled, matched).
        let eq : x ≡ value = cc in both.1 (rw eq at filled, rw eq at matched)),
  )
    where
      both :
          (of_value k (some value) ≡ none)
          ↔ ((trim_space value ≢ []) × (match_string k.pattern value ≡ some true))
      both = ground (
        arith,
        text_eq_iff (trim_space value) [],
        of_match-none k.key (match_string k.pattern value),
      )

  check_key-IsMet : (k : SchemaKey) → (check_key k ≡ none) ↔ IsMet k
  check_key-IsMet k = ground (arith, of_value-none k (env k.key))

  or_else-none : (a b : Option EnvError) → (or_else a b ≡ none) ↔ ((a ≡ none) × (b ≡ none))
  or_else-none none b = ground arith
  or_else-none (some e) b = ground arith

  check_keys-All : (keys : List SchemaKey) → (check_keys keys ≡ none) ↔ All IsMet keys
  unfolding check_keys
  check_keys-All [] = ((λ e. tt), (λ h. refl))
  check_keys-All (k ∷ keys) =
      ground (
        arith,
        or_else-none (check_key k) (check_keys keys),
        check_key-IsMet k,
        check_keys-All keys,
      )

  of_schema-none :
      (schema : Option (List SchemaKey))
      → (of_schema schema ≡ none)
        ↔ ((keys : List SchemaKey) × (schema ≡ some keys) × All IsMet keys)
  of_schema-none none = ((λ e. cc), (λ h. cc))
  of_schema-none (some keys) = (
    (λ e. (keys, refl, (check_keys-All keys).0 e)),
    (λ (ks, same, met). let eq : ks ≡ keys = cc in (check_keys-All keys).1 (rw eq at met)),
  )

  -- In production the check passes exactly where the schema can be read and every key that it requires
  -- is set to a value that is not blank and matches the key's pattern.
  pub validate-IsMet_iff :
      (schema : Option (List SchemaKey))
      → trim_space (getenv_or_empty env (codes "AUDISTRO_ENV")) ≡ codes "prod"
      → (validate schema ≡ none) ↔ ((keys : List SchemaKey) × (schema ≡ some keys) × All IsMet keys)
  unfolding validate text_eq
  validate-IsMet_iff schema production = rw production (of_schema-none schema)
