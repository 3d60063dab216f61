-- ===== src/Config/Validate.antt =====
-- Validate of config.go. The file system, the parsers of URLs and CIDRs are arguments.
pub mod Conditions
pub mod Steps
pub mod Valid
use audistro_provider.Prelude.{
  ℕ, ◌+◌, Bool, true, false, not, ◌&&◌, ◌||◌, Option, none, some, List, [], ◌∷◌, Text, codes, any,
  length, ltb, text_eq, ◌==◌, if◌then◌else◌,
}
use audistro_provider.Go.Int64.{ℤ, pos, leb_ℤ}
use audistro_provider.Go.Strings.{to_lower, trim_space, trim_right}
use audistro_provider.Go.Net.{Url}
use audistro_provider.Config.{Config, split_csv}

-- The cause of the error, one for each return of Validate and of the functions it calls.
pub data ConfigError : Type 0 where
  invalid_storage_mode max_segment_bytes rate_limit_rps rate_limit_burst : ConfigError
  shutdown_timeout_seconds proxy_max_upstream_concurrency : ConfigError
  data_path_empty data_path_failed assets_root_failed : ConfigError
  invalid_url missing_host invalid_scheme public_url_insecure origin_required : ConfigError
  secret_path_required secret_unreadable secret_too_short invalid_auth_mode : ConfigError
  public_url_required cors_origins_required cors_any_origin : ConfigError
  internal_cidrs_required invalid_internal_cidrs invalid_trusted_cidrs : ConfigError

pub data Checked (A : Type 0) : Type 0 where
  ok : A → Checked A
  error : ConfigError → Checked A

infixl 5 ◌>>=◌ ◌>>◌
abbrev pub ◌>>=◌ : {A B : Type 0} → Checked A → (A → Checked B) → Checked B
ok a >>= f = f a
error e >>= f = error e

abbrev pub ◌>>◌ : {B : Type 0} → Checked Unit → Checked B → Checked B
m >> k = m >>= λ _. k

-- What Validate meets outside: whether each MkdirAll works, ReadFile, url.Parse and ParseCIDR.
pub record Host (IpNet : Type 0) : Type 0 where
  pub makes_data_path : Bool
  pub makes_assets_root : Bool
  pub read_file : Text → Option Text
  pub parse_url : Text → Option Url
  pub parse_cidr : Text → Option IpNet

abbrev pub require : Bool → ConfigError → Checked Unit
require true e = ok tt
require false e = error e

abbrev pub is_positive : ℤ → Bool
is_positive n = not (leb_ℤ n (pos 0))

abbrev pub is_blank : Text → Bool
is_blank s = text_eq (trim_space s) []

-- The mode that the rest of Validate goes by: whether it is proxy or hybrid.
unfoldable pub check_mode : Config → Checked Bool
check_mode c =
    let mode = to_lower (trim_space c.storage_mode) in
    if text_eq mode [] || text_eq mode (codes "filesystem")
    then ok false
    else if text_eq mode (codes "proxy") || text_eq mode (codes "hybrid")
    then ok true
    else error invalid_storage_mode

unfoldable pub check_limits : Config → Checked Unit
check_limits c = do
  require (is_positive c.max_segment_bytes) max_segment_bytes
  require (is_positive c.rate_limit_rps) rate_limit_rps
  require (is_positive c.rate_limit_burst) rate_limit_burst
  require (is_positive c.shutdown_timeout_seconds) shutdown_timeout_seconds
  require (is_positive c.proxy_max_upstream_concurrency) proxy_max_upstream_concurrency

abbrev pub is_carriage_or_newline : ℕ → Bool
is_carriage_or_newline b = b == 13 || b == 10

abbrev pub check_secret : Option Text → Checked Unit
check_secret none = error secret_unreadable
check_secret (some bytes) =
    require (not (ltb (length (trim_right is_carriage_or_newline bytes)) 16)) secret_too_short

abbrev pub is_web_scheme : Text → Bool
is_web_scheme scheme =
    text_eq (to_lower scheme) (codes "http") || text_eq (to_lower scheme) (codes "https")

abbrev pub check_url : Option Url → Checked Url
check_url none = error invalid_url
check_url (some url) =
    if text_eq url.host []
    then error missing_host
    else if not (is_web_scheme url.scheme)
    then error invalid_scheme
    else ok url

abbrev pub cons_to {ℓ} : {A : Type ℓ} → Option A → Option (List A) → Option (List A)
cons_to none rest = none
cons_to (some a) none = none
cons_to (some a) (some rest) = some (a ∷ rest)

module _ {IpNet : Type 0} where
  abbrev pub parse_entries : (Text → Option IpNet) → List Text → Option (List IpNet)
  parse_entries parse_cidr [] = some []
  parse_entries parse_cidr (entry ∷ entries) =
      cons_to (parse_cidr entry) (parse_entries parse_cidr entries)

  abbrev pub some_entries : (Text → Option IpNet) → List Text → Option (List IpNet)
  some_entries parse_cidr [] = none
  some_entries parse_cidr (entry ∷ entries) = parse_entries parse_cidr (entry ∷ entries)

  unfoldable pub parse_cidrs : (Text → Option IpNet) → Text → Option (List IpNet)
  parse_cidrs parse_cidr csv = some_entries parse_cidr (split_csv csv)

  module _ (host : Host IpNet) (c : Config) where
    unfoldable pub check_paths : Checked Unit
    check_paths = do
      require (not (is_blank c.data_path)) data_path_empty
      require host.makes_data_path data_path_failed
      require host.makes_assets_root assets_root_failed

    unfoldable pub validate_url : Text → Checked Url
    validate_url raw = check_url (host.parse_url (trim_space raw))

    -- strings.EqualFold is equality of the lower case here.
    abbrev require_secure : Url → Checked (Option Url)
    require_secure url =
        if not (text_eq (to_lower url.scheme) (codes "https")) && not c.allow_insecure_public_url
        then error public_url_insecure
        else ok (some url)

    unfoldable pub check_public : Checked (Option Url)
    unfolding validate_url
    check_public =
        if not (is_blank c.public_base_url)
        then (do url ← validate_url c.public_base_url; require_secure url)
        else ok none

    unfoldable pub check_origin : Bool → Checked Unit
    unfolding validate_url
    check_origin false = ok tt
    check_origin true = do
      require (not (is_blank c.origin_base_url)) origin_required
      url ← validate_url c.origin_base_url
      ok tt

    unfoldable pub check_auth : Checked Unit
    check_auth =
        let mode = to_lower (trim_space c.origin_auth_mode) in
        if text_eq mode [] || text_eq mode (codes "none")
        then ok tt
        else if text_eq mode (codes "hmac")
        then (do
          require (not (is_blank c.origin_hmac_secret_path)) secret_path_required
          check_secret (host.read_file (trim_space c.origin_hmac_secret_path)))
        else error invalid_auth_mode

    abbrev require_public : Option Url → Checked Unit
    require_public none = error public_url_required
    require_public (some url) = ok tt

    unfoldable pub check_catalog : Option Url → Checked Unit
    unfolding validate_url
    check_catalog public =
        if not (is_blank c.catalog_base_url)
        then (do url ← validate_url c.catalog_base_url; require_public public)
        else ok tt

    abbrev require_origins : List Text → Checked Unit
    require_origins [] = error cors_origins_required
    require_origins (origin ∷ origins) =
        require (not (any (λ o. text_eq o (codes "*")) (origin ∷ origins))) cors_any_origin

    unfoldable pub check_cors : Checked Unit
    check_cors = if c.enable_cors then require_origins (split_csv c.cors_allowed_origins) else ok tt

    abbrev require_parsed : Option (List IpNet) → ConfigError → Checked Unit
    require_parsed none e = error e
    require_parsed (some nets) e = ok tt

    unfoldable pub check_internal : Checked Unit
    unfolding parse_cidrs
    check_internal =
        if c.internal_enable
        then (do
          require (not (is_blank c.internal_allowed_cidrs)) internal_cidrs_required
          require_parsed (parse_cidrs host.parse_cidr c.internal_allowed_cidrs)
              invalid_internal_cidrs)
        else ok tt

    unfoldable pub check_proxies : Checked Unit
    unfolding parse_cidrs
    check_proxies =
        if not (is_blank c.trusted_proxy_cidrs)
        then require_parsed (parse_cidrs host.parse_cidr c.trusted_proxy_cidrs)
            invalid_trusted_cidrs
        else ok tt

    abbrev pub after_public : Bool → Option Url → Checked Unit
    after_public fetches public = do
      check_origin fetches
      check_auth
      check_catalog public
      check_cors
      check_internal
      check_proxies

    abbrev pub after_mode : Bool → Checked Unit
    after_mode fetches = do
      check_limits c
      check_paths
      public ← check_public
      after_public fetches public

    unfoldable pub validate : Checked Unit
    validate = do fetches ← check_mode c; after_mode fetches
