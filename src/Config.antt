-- ===== src/Config.antt =====
-- internal/config/config.go: the settings, and how Load reads them from the environment.
pub mod Parts
pub mod Load
pub mod Validate
use audistro_provider.Prelude.{Bool, Text, Option, List, [], ◌∷◌, text_eq, if◌then◌else◌}
use audistro_provider.Go.Int64.{ℤ}
use audistro_provider.Go.Strings.{split, trim_space}

pub record Config : Type 0 where
  pub env : Text
  pub http_addr : Text
  pub public_base_url : Text
  pub allow_insecure_public_url : Bool
  pub data_path : Text
  pub identity_path : Text
  pub db_path : Text
  pub scan_on_startup : Bool
  pub enable_jobs : Bool
  pub internal_enable : Bool
  pub internal_allowed_cidrs : Text
  pub trust_proxy_headers : Bool
  pub trusted_proxy_cidrs : Text
  pub shutdown_timeout_seconds : ℤ
  pub assets_subdir : Text
  pub max_segment_bytes : ℤ
  pub rate_limit_rps : ℤ
  pub rate_limit_burst : ℤ
  pub enable_cors : Bool
  pub cors_allowed_origins : Text
  pub cors_allow_credentials : Bool
  pub enforce_no_symlinks : Bool
  pub trust_proxy_addresses : Bool
  pub rescan_interval_seconds : ℤ
  pub announce_sweep_interval_seconds : ℤ
  pub reannounce_threshold_seconds : ℤ
  pub backoff_base_millis : ℤ
  pub backoff_max_seconds : ℤ
  pub rejected_retry_seconds : ℤ
  pub unauthorized_retry_seconds : ℤ
  pub announcement_expiry_grace_seconds : ℤ
  pub storage_mode : Text
  pub origin_base_url : Text
  pub origin_auth_mode : Text
  pub origin_hmac_secret_path : Text
  pub origin_hmac_key_id : Text
  pub origin_auth_include_query : Bool
  pub proxy_max_upstream_concurrency : ℤ
  pub transport : Text
  pub announce_priority : ℤ
  pub announce_expires_seconds : ℤ
  pub catalog_timeout_seconds : ℤ
  pub catalog_base_url : Text
  pub announce_interval : Text
  pub region : Text
  pub private_key_path : Text
  pub internal_enable_explicit : Bool
  pub internal_allowed_cidrs_explicit : Bool

abbrev add_trimmed : Text → List Text → List Text
add_trimmed trimmed out = if text_eq trimmed [] then out else trimmed ∷ out

unfoldable pub trimmed_parts : List Text → List Text
trimmed_parts [] = []
trimmed_parts (part ∷ parts) = add_trimmed (trim_space part) (trimmed_parts parts)

unfoldable pub split_csv : Text → List Text
unfolding trimmed_parts
split_csv csv = trimmed_parts (split b',' csv)
