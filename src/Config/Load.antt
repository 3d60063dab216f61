-- ===== src/Config/Load.antt =====
-- Load of config.go and the readers of the environment that it is made of.
pub mod Settings
pub mod Exposure
use audistro_provider.Prelude.{
  Bool, true, false, not, ◌&&◌, ◌||◌, Option, none, some, [], Text, codes, text_eq, if◌then◌else◌,
}
use audistro_provider.Go.Int64.{ℤ, pos}
use audistro_provider.Go.Strings.{to_lower, trim_space}
use audistro_provider.Go.Strconv.{parse_int, parse_bool}
use audistro_provider.Go.Filepath.{join}
use audistro_provider.Config.{Config}

-- os.LookupEnv.
abbrev pub Environment : Type 0
Environment = Text → Option Text

abbrev pub or_default {ℓ} : {A : Type ℓ} → A → Option A → A
or_default fallback none = fallback
or_default fallback (some value) = value

unfoldable pub getenv : Environment → Text → Text → Text
getenv env key fallback = or_default fallback (env key)

-- os.Getenv.
unfoldable pub getenv_or_empty : Environment → Text → Text
unfolding getenv
getenv_or_empty env key = getenv env key []

abbrev explicit_text : Option Text → Text × Bool
explicit_text none = ([], false)
explicit_text (some value) = (value, true)

unfoldable pub getenv_with_explicit : Environment → Text → Text × Bool
getenv_with_explicit env key = explicit_text (env key)

-- An empty value or one that does not parse is passed over.
unfoldable pub getenv_int64 : Environment → Text → ℤ → ℤ
getenv_int64 env key fallback =
    if text_eq (getenv_or_empty env key) []
    then fallback
    else or_default fallback (parse_int (getenv_or_empty env key))

-- Atoi is ParseInt to 64 bits here.
unfoldable pub getenv_int : Environment → Text → ℤ → ℤ
getenv_int env key fallback =
    if text_eq (getenv_or_empty env key) []
    then fallback
    else or_default fallback (parse_int (getenv_or_empty env key))

unfoldable pub getenv_bool : Environment → Text → Bool → Bool
getenv_bool env key fallback =
    if text_eq (getenv_or_empty env key) []
    then fallback
    else or_default fallback (parse_bool (getenv_or_empty env key))

abbrev explicit_bool : Environment → Text → Bool → Option Text → Bool × Bool
explicit_bool env key fallback none = (fallback, false)
explicit_bool env key fallback (some value) = (getenv_bool env key fallback, true)

unfoldable pub getenv_bool_with_explicit : Environment → Text → Bool → Bool × Bool
getenv_bool_with_explicit env key fallback = explicit_bool env key fallback (env key)

abbrev pub is_dev : Text → Bool
is_dev name = text_eq name (codes "dev")

abbrev pub is_test : Text → Bool
is_test name = text_eq name (codes "test")

abbrev pub first_name : Environment → Text
first_name env =
    let name = to_lower (trim_space (getenv_or_empty env (codes "AUDISTRO_ENV"))) in
    if text_eq name []
    then to_lower (trim_space (getenv env (codes "PROVIDER_ENV") (codes "prod")))
    else name

abbrev pub known_name : Text → Text
known_name name =
    if not (is_dev name) && not (text_eq name (codes "prod")) && not (is_test name)
    then codes "prod"
    else name

-- The steps of `Load` ahead of its literal.
unfoldable pub load_env : Environment → Text
load_env env = known_name (first_name env)

unfoldable pub load_data_path : Environment → Text
load_data_path env = getenv env (codes "PROVIDER_DATA_PATH") (codes "./data")

unfoldable pub load_path : Environment → Text → Text → Text
load_path env key name =
    if text_eq (getenv_or_empty env key) []
    then join (load_data_path env) name
    else getenv_or_empty env key

unfoldable pub load_internal_enable : Environment → Bool × Bool
load_internal_enable env =
    getenv_bool_with_explicit env (codes "PROVIDER_INTERNAL_ENABLE")
      (is_dev (load_env env) || is_test (load_env env))

unfoldable pub load_internal_allowed_cidrs : Environment → Text
load_internal_allowed_cidrs env =
    let (value, explicit) = getenv_with_explicit env (codes "PROVIDER_INTERNAL_ALLOWED_CIDRS") in
    if text_eq (trim_space value) [] && is_dev (load_env env)
    then codes "127.0.0.1/32,::1/128"
    else value

unfoldable pub load : Environment → Config
load env = record {
  env = load_env env;
  http_addr = getenv env (codes "PROVIDER_HTTP_ADDR") (codes ":8080");
  public_base_url = getenv_or_empty env (codes "PROVIDER_PUBLIC_BASE_URL");
  allow_insecure_public_url = getenv_bool env (codes "PROVIDER_ALLOW_INSECURE_PUBLIC_URL") false;
  data_path = load_data_path env;
  identity_path = load_path env (codes "PROVIDER_IDENTITY_PATH") (codes "provider_identity.json");
  db_path = load_path env (codes "PROVIDER_DB_PATH") (codes "provider.db");
  scan_on_startup = getenv_bool env (codes "PROVIDER_SCAN_ON_STARTUP") true;
  enable_jobs = getenv_bool env (codes "PROVIDER_ENABLE_JOBS") true;
  internal_enable = (load_internal_enable env).0;
  internal_allowed_cidrs = load_internal_allowed_cidrs env;
  trust_proxy_headers = getenv_bool env (codes "PROVIDER_TRUST_PROXY_HEADERS") false;
  trusted_proxy_cidrs = trim_space (getenv_or_empty env (codes "PROVIDER_TRUSTED_PROXY_CIDRS"));
  shutdown_timeout_seconds = getenv_int env (codes "PROVIDER_SHUTDOWN_TIMEOUT_SECONDS") (pos 15);
  assets_subdir = getenv env (codes "PROVIDER_ASSETS_SUBDIR") (codes "assets");
  max_segment_bytes = getenv_int64 env (codes "PROVIDER_MAX_SEGMENT_BYTES") (pos 67_108_864);
  rate_limit_rps = getenv_int env (codes "PROVIDER_RATE_LIMIT_RPS") (pos 20);
  rate_limit_burst = getenv_int env (codes "PROVIDER_RATE_LIMIT_BURST") (pos 40);
  enable_cors = getenv_bool env (codes "PROVIDER_ENABLE_CORS") false;
  cors_allowed_origins = getenv_or_empty env (codes "PROVIDER_CORS_ALLOWED_ORIGINS");
  cors_allow_credentials = getenv_bool env (codes "PROVIDER_CORS_ALLOW_CREDENTIALS") false;
  enforce_no_symlinks = getenv_bool env (codes "PROVIDER_ENFORCE_NO_SYMLINKS") true;
  trust_proxy_addresses = false;
  rescan_interval_seconds = getenv_int env (codes "PROVIDER_RESCAN_INTERVAL_SECONDS") (pos 300);
  announce_sweep_interval_seconds =
      getenv_int env (codes "PROVIDER_ANNOUNCE_SWEEP_INTERVAL_SECONDS") (pos 300);
  reannounce_threshold_seconds =
      getenv_int env (codes "PROVIDER_REANNOUNCE_THRESHOLD_SECONDS") (pos 86_400);
  backoff_base_millis = getenv_int env (codes "PROVIDER_BACKOFF_BASE_MILLIS") (pos 2_000);
  backoff_max_seconds = getenv_int env (codes "PROVIDER_BACKOFF_MAX_SECONDS") (pos 600);
  rejected_retry_seconds = getenv_int env (codes "PROVIDER_REJECTED_RETRY_SECONDS") (pos 86_400);
  unauthorized_retry_seconds =
      getenv_int env (codes "PROVIDER_UNAUTHORIZED_RETRY_SECONDS") (pos 3_600);
  announcement_expiry_grace_seconds =
      getenv_int env (codes "PROVIDER_ANNOUNCEMENT_EXPIRY_GRACE_SECONDS") (pos 86_400);
  storage_mode =
      to_lower (trim_space (getenv env (codes "PROVIDER_STORAGE_MODE") (codes "filesystem")));
  origin_base_url = trim_space (getenv_or_empty env (codes "PROVIDER_ORIGIN_BASE_URL"));
  origin_auth_mode =
      to_lower (trim_space (getenv env (codes "PROVIDER_ORIGIN_AUTH_MODE") (codes "none")));
  origin_hmac_secret_path =
      trim_space (getenv_or_empty env (codes "PROVIDER_ORIGIN_HMAC_SECRET_PATH"));
  origin_hmac_key_id = getenv env (codes "PROVIDER_ORIGIN_HMAC_KEY_ID") (codes "v1");
  origin_auth_include_query = getenv_bool env (codes "PROVIDER_ORIGIN_AUTH_INCLUDE_QUERY") true;
  proxy_max_upstream_concurrency =
      getenv_int env (codes "PROVIDER_PROXY_MAX_UPSTREAM_CONCURRENCY") (pos 64);
  transport = getenv env (codes "PROVIDER_TRANSPORT") (codes "https");
  announce_priority = getenv_int env (codes "PROVIDER_ANNOUNCE_PRIORITY") (pos 10);
  announce_expires_seconds =
      getenv_int env (codes "PROVIDER_ANNOUNCE_EXPIRES_SECONDS") (pos 604_800);
  catalog_timeout_seconds = getenv_int env (codes "PROVIDER_CATALOG_TIMEOUT_SECONDS") (pos 10);
  catalog_base_url = getenv_or_empty env (codes "PROVIDER_CATALOG_BASE_URL");
  announce_interval = getenv_or_empty env (codes "PROVIDER_ANNOUNCE_INTERVAL");
  region = getenv_or_empty env (codes "PROVIDER_REGION");
  private_key_path = getenv_or_empty env (codes "PROVIDER_PRIVATE_KEY_PATH");
  internal_enable_explicit = (load_internal_enable env).1;
  internal_allowed_cidrs_explicit =
      (getenv_with_explicit env (codes "PROVIDER_INTERNAL_ALLOWED_CIDRS")).1;
}
