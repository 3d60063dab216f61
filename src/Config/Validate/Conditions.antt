-- ===== src/Config/Validate/Conditions.antt =====
-- The conditions that Validate of config.go checks, one for each part of it.
use audistro_provider.Prelude.{
  ◌≤◌, ◌≡◌, ◌≢◌, ◌⊎◌, true, false, Option, none, some, [], Text, codes, any, length, text_eq,
}
use audistro_provider.Go.Int64.{pos, ◌<ℤ◌}
use audistro_provider.Go.Strings.{to_lower, trim_space, trim_right}
use audistro_provider.Go.Net.{Url}
use audistro_provider.Config.{Config, split_csv}
use audistro_provider.Config.Validate.{Host, is_carriage_or_newline, parse_cidrs}

abbrev pub HasLimits : Config → Type 0
HasLimits c =
    (pos 0 <ℤ c.max_segment_bytes)
    × (pos 0 <ℤ c.rate_limit_rps)
    × (pos 0 <ℤ c.rate_limit_burst)
    × (pos 0 <ℤ c.shutdown_timeout_seconds)
    × (pos 0 <ℤ c.proxy_max_upstream_concurrency)

-- A URL with a host that is http or https.
abbrev pub IsWebUrl : (Text → Option Url) → Text → Url → Type 0
IsWebUrl parse_url raw u =
    (parse_url (trim_space raw) ≡ some u)
    × (u.host ≢ [])
    × ((to_lower u.scheme ≡ codes "http") ⊎ (to_lower u.scheme ≡ codes "https"))

module _ {IpNet : Type 0} (host : Host IpNet) (c : Config) where
  abbrev pub HasPaths : Type 0
  HasPaths =
      (trim_space c.data_path ≢ [])
      × (host.makes_data_path ≡ true)
      × (host.makes_assets_root ≡ true)

  -- The public URL, where there is one, is a web URL, and https unless that is waived.
  abbrev pub IsPublic : Option Url → Type 0
  IsPublic none = trim_space c.public_base_url ≡ []
  IsPublic (some u) =
      (trim_space c.public_base_url ≢ [])
      × IsWebUrl host.parse_url c.public_base_url u
      × ((to_lower u.scheme ≡ codes "https") ⊎ (c.allow_insecure_public_url ≡ true))

  abbrev pub HasOrigin : Type 0
  HasOrigin =
      (trim_space c.origin_base_url ≢ [])
      × ((u : Url) × IsWebUrl host.parse_url c.origin_base_url u)

  abbrev pub HasSecret : Type 0
  HasSecret =
      (trim_space c.origin_hmac_secret_path ≢ [])
      × ((secret : Text) × (host.read_file (trim_space c.origin_hmac_secret_path) ≡ some secret)
          × (16 ≤ length (trim_right is_carriage_or_newline secret)))

  abbrev pub HasCatalog : Option Url → Type 0
  HasCatalog public =
      (trim_space c.catalog_base_url ≡ [])
      ⊎ (((u : Url) × IsWebUrl host.parse_url c.catalog_base_url u) × (public ≢ none))

  abbrev pub HasOrigins : Type 0
  HasOrigins =
      (split_csv c.cors_allowed_origins ≢ [])
      × (any (λ o. text_eq o (codes "*")) (split_csv c.cors_allowed_origins) ≡ false)

  abbrev pub HasAllowlist : Type 0
  HasAllowlist =
      (trim_space c.internal_allowed_cidrs ≢ [])
      × (parse_cidrs host.parse_cidr c.internal_allowed_cidrs ≢ none)

  -- The mode is known, and where it asks an origin there is one.
  abbrev pub HasStorage : Type 0
  HasStorage =
      ((to_lower (trim_space c.storage_mode) ≡ [])
        ⊎ (to_lower (trim_space c.storage_mode) ≡ codes "filesystem"))
      ⊎ (((to_lower (trim_space c.storage_mode) ≡ codes "proxy")
            ⊎ (to_lower (trim_space c.storage_mode) ≡ codes "hybrid"))
          × HasOrigin)

  -- The origin's authentication is known, and where it is hmac there is a secret of 16 bytes or more.
  abbrev pub HasAuth : Type 0
  HasAuth =
      ((to_lower (trim_space c.origin_auth_mode) ≡ [])
        ⊎ (to_lower (trim_space c.origin_auth_mode) ≡ codes "none"))
      ⊎ ((to_lower (trim_space c.origin_auth_mode) ≡ codes "hmac") × HasSecret)

  -- The allowed networks are there where they are used, and every list of networks that is given
  -- parses.
  abbrev pub HasNetworks : Type 0
  HasNetworks =
      ((c.internal_enable ≡ false) ⊎ HasAllowlist)
      × ((trim_space c.trusted_proxy_cidrs ≡ [])
          ⊎ (parse_cidrs host.parse_cidr c.trusted_proxy_cidrs ≢ none))

  pub record IsValid : Type 0 where
    pub limits : HasLimits c
    pub paths : HasPaths
    pub storage : HasStorage
    pub auth : HasAuth
    pub urls : (public : Option Url) × IsPublic public × HasCatalog public
    pub origins : (c.enable_cors ≡ false) ⊎ HasOrigins
    pub networks : HasNetworks
