-- ===== src/Program.antt =====
-- cmd/audistro-provider/main.go: the functions that main makes and the steps of its start that decide
-- something. Files and the parts of the program that it starts are arguments.
pub mod Names
pub mod Readiness
use audistro_provider.Prelude.{
  ℕ, ◌+◌, Bool, true, false, not, ◌&&◌, ◌||◌, Option, none, some, [], ◌∷◌, Text, codes, length, ltb,
  text_eq, if◌then◌else◌,
}
use audistro_provider.Go.Strings.{to_lower, trim_space, trim_right, ext, has_prefix, has_suffix}
use audistro_provider.Config.{Config}
use audistro_provider.Config.Validate.{is_carriage_or_newline, is_blank}
use audistro_provider.Originauth.{HmacSigner, new_hmac_signer}
use audistro_provider.Fssecure.{
  Answer, not_exist, failing, found, is_dir, Node, Verdict, clean, link_found, audit_failed,
  audit_no_symlinks,
}
use audistro_provider.Catalog.Client.{CatalogError}
use audistro_provider.Catalog.HealthState.{HealthState, new_health_state, set}

abbrev pub is_init : Text → Bool
is_init lower =
    text_eq lower (codes "init.mp4")
    || has_prefix lower (codes "init-")
      && has_suffix lower (codes ".mp4")
      && ltb (length (codes "init-.mp4")) (length lower)

-- `allowlistedAssetName`.
unfoldable pub allowlisted_asset_name : Text → Bool
allowlisted_asset_name name =
    let lower = to_lower name in
    let e = to_lower (ext lower) in
    if text_eq e (codes ".m3u8") || text_eq e (codes ".ts") || text_eq e (codes ".m4s")
    then true
    else text_eq e (codes ".mp4") && is_init lower

abbrev pub is_hmac : Config → Bool
is_hmac cfg = text_eq (to_lower (trim_space cfg.origin_auth_mode)) (codes "hmac")

abbrev pub signer_with : Config → Text → Text → Bool × Option HmacSigner
signer_with cfg provider_id secret = if ltb (length secret) 16 then (false, none) else (
  true,
  some (new_hmac_signer cfg.origin_hmac_key_id secret provider_id cfg.origin_auth_include_query),
)

abbrev pub signer_of : Config → Text → Option Text → Bool × Option HmacSigner
signer_of cfg provider_id none = (false, none)
signer_of cfg provider_id (some bytes) =
    signer_with cfg provider_id (trim_right is_carriage_or_newline bytes)

-- `originAuthReady` and `originSigner`, from the file system and the identity.
unfoldable pub origin_signer : (Text → Option Text) → Config → Text → Bool × Option HmacSigner
origin_signer read_file cfg provider_id =
    if is_hmac cfg
    then signer_of cfg provider_id (read_file cfg.origin_hmac_secret_path)
    else (true, none)

abbrev pub after_audit : Bool → Verdict → Option Text
after_audit auth_fails audit_failed = some (codes "symlink_audit_failed")
after_audit auth_fails link_found = some (codes "symlink_detected")
after_audit auth_fails clean = if auth_fails then some (codes "origin_auth_not_ready") else none

abbrev pub after_stat : Config → Node → Bool → Answer → Option Text
after_stat cfg tree auth_fails not_exist = some (codes "assets_root_unavailable")
after_stat cfg tree auth_fails failing = some (codes "assets_root_unavailable")
after_stat cfg tree auth_fails (found info) =
    if not (is_dir info.file_type)
    then some (codes "assets_root_not_directory")
    else after_audit auth_fails (if cfg.enforce_no_symlinks then audit_no_symlinks tree else clean)

-- `readinessChecker`: `none` where it is ready, and else its error; `pinged` says that the database
-- answers, `stat` is what Stat of the assets root answers, and `tree` is what a walk meets there.
unfoldable pub readiness_checker : Config → Bool → Bool → Answer → Node → Option Text
readiness_checker cfg origin_auth_ready pinged stat tree =
    if not pinged
    then some (codes "db_unavailable")
    else after_stat cfg tree (is_hmac cfg && not origin_auth_ready) stat

-- The error of `NewClient` or of `EnsureProvider`.
pub data StartError : Type 0 where
  unusable_client : StartError
  not_ensured : CatalogError → StartError

abbrev pub after_ensure : Option CatalogError → HealthState StartError → HealthState StartError
after_ensure none s = set none s
after_ensure (some err) s = set (some (not_ensured err)) s

-- The start of the catalog client: whether there is one, and the health state. `usable` says that
-- NewClient works, `ensured` is the error of EnsureProvider.
unfoldable pub start_catalog : Config → Bool → Option CatalogError → Bool × HealthState StartError
start_catalog cfg usable ensured =
    let s = new_health_state (not (is_blank cfg.catalog_base_url)) in
    if is_blank cfg.catalog_base_url
    then (false, s)
    else if not usable
    then (false, set (some unusable_client) s)
    else (true, after_ensure ensured s)
