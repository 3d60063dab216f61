-- ===== src/Config/Validate/Steps.antt =====
-- Each part of Validate of config.go passes exactly where its condition holds.
use audistro_provider.Prelude.{
  ◌≤◌, ◌≡◌, refl, ◌≢◌, ◌↔◌, ◌⊎◌, inl, inr, Bool, true, false, Option, none, some, List, [], ◌∷◌,
  Text, codes, any, length, text_eq, text_eq_iff, arith, Bool-cases,
}
use audistro_provider.Go.Strings.{to_lower, trim_space, trim_right}
use audistro_provider.Go.Net.{Url}
use audistro_provider.Config.{Config, split_csv}
use audistro_provider.Config.Validate.{
  ConfigError, invalid_internal_cidrs, invalid_trusted_cidrs, Checked, ok, error, ◌>>=◌, Host,
  is_blank, check_mode, check_limits, is_carriage_or_newline, check_secret, check_url, parse_cidrs,
  check_paths, validate_url, check_public, check_origin, check_auth, check_catalog, check_cors,
  check_internal, check_proxies, require_secure, require_public, require_origins, require_parsed,
}
use audistro_provider.Config.Validate.Conditions.{
  HasLimits, HasPaths, IsPublic, HasOrigin, HasCatalog, HasOrigins, HasAllowlist, HasAuth,
}

-- A chain succeeds exactly when its first part does, and then the rest.
pub >>=-ok :
    {A B : Type 0} (m : Checked A) (f : A → Checked B) {b : B}
    → m >>= f ≡ ok b
    → (a : A) × (m ≡ ok a) × (f a ≡ ok b)
>>=-ok (ok a) f e = (a, refl, e)
>>=-ok (error c) f e = cc

pub check_limits-HasLimits : (c : Config) → (check_limits c ≡ ok tt) ↔ HasLimits c
unfolding check_limits
check_limits-HasLimits c = ground arith

pub check_url-ok :
    (r : Option Url) (u : Url)
    → (check_url r ≡ ok u) ↔ (
        (r ≡ some u)
        × (u.host ≢ [])
        × ((to_lower u.scheme ≡ codes "http") ⊎ (to_lower u.scheme ≡ codes "https")))
check_url-ok none u = ((λ e. cc), (λ h. cc))
check_url-ok (some v) u = ground (
  arith,
  text_eq_iff v.host [],
  text_eq_iff (to_lower v.scheme) (codes "http"),
  text_eq_iff (to_lower v.scheme) (codes "https"),
)

pub check_secret-ok :
    (r : Option Text)
    → (check_secret r ≡ ok tt) ↔ (
        (secret : Text) × (r ≡ some secret)
        × (16 ≤ length (trim_right is_carriage_or_newline secret)))
check_secret-ok none = ((λ e. cc), (λ h. cc))
check_secret-ok (some s) = (
  (λ e. (s, refl, ground arith)),
  (λ (x, e, l).
      let same : x ≡ s = cc in
      let enough : 16 ≤ length (trim_right is_carriage_or_newline s) = rw same at l in
      ground arith),
)

pub check_mode-ok :
    (c : Config) (fetches : Bool)
    → (check_mode c ≡ ok fetches) ↔ (
        (fetches ≡ false)
          × ((to_lower (trim_space c.storage_mode) ≡ [])
              ⊎ (to_lower (trim_space c.storage_mode) ≡ codes "filesystem"))
        ⊎ (fetches ≡ true)
          × ((to_lower (trim_space c.storage_mode) ≡ codes "proxy")
              ⊎ (to_lower (trim_space c.storage_mode) ≡ codes "hybrid")))
unfolding check_mode
check_mode-ok c fetches =
    let mode = to_lower (trim_space c.storage_mode) in
    ground (
      arith,
      text_eq_iff mode [],
      text_eq_iff mode (codes "filesystem"),
      text_eq_iff mode (codes "proxy"),
      text_eq_iff mode (codes "hybrid"),
    )

module _ {IpNet : Type 0} (host : Host IpNet) (c : Config) where
  pub check_paths-HasPaths : (check_paths host c ≡ ok tt) ↔ HasPaths host c
  unfolding check_paths
  check_paths-HasPaths = ground (arith, text_eq_iff (trim_space c.data_path) [])

  require_secure-ok :
      (u v : Url)
      → (require_secure host c v ≡ ok (some u))
        ↔ ((v ≡ u) × ((to_lower u.scheme ≡ codes "https") ⊎ (c.allow_insecure_public_url ≡ true)))
  require_secure-ok u v = ground (
    arith,
    text_eq_iff (to_lower v.scheme) (codes "https"),
    text_eq_iff (to_lower u.scheme) (codes "https"),
  )

  pub check_public-IsPublic :
      (public : Option Url) → (check_public host c ≡ ok public) ↔ IsPublic host c public
  unfolding check_public validate_url
  check_public-IsPublic none = ground (arith, text_eq_iff (trim_space c.public_base_url) [])
  check_public-IsPublic (some u) = elim (Bool-cases (is_blank c.public_base_url)) [
    | inl blank ↦ rw blank (ground (arith, text_eq_iff (trim_space c.public_base_url) []))
    | inr filled ↦ rw filled (
      (λ e.
          let (v, valid, secure) = >>=-ok _ (λ url. require_secure host c url) e in
          let (same, safe) = (require_secure-ok u v).0 secure in
          let web = (check_url-ok _ v).0 valid in
          (ground (arith, text_eq_iff (trim_space c.public_base_url) []), rw same at web, safe)),
      (λ (named, web, safe).
          rw ((check_url-ok _ u).1 web) ((require_secure-ok u u).1 (refl, safe))),
    )
  ]

  pub check_origin-HasOrigin : (check_origin host c true ≡ ok tt) ↔ HasOrigin host c
  unfolding check_origin validate_url
  check_origin-HasOrigin = elim (Bool-cases (is_blank c.origin_base_url)) [
    | inl blank ↦ rw blank (ground (arith, text_eq_iff (trim_space c.origin_base_url) []))
    | inr filled ↦ rw filled (
      (λ e.
          let (v, valid, done) =
            >>=-ok (check_url (host.parse_url (trim_space c.origin_base_url))) (λ url. ok tt) e in
          (
            ground (arith, text_eq_iff (trim_space c.origin_base_url) []),
            (v, (check_url-ok _ v).0 valid),
          )),
      (λ (named, (u, web)). rw ((check_url-ok _ u).1 web) refl),
    )
  ]

  require_public-ok :
      (public : Option Url) → (require_public host c public ≡ ok tt) ↔ (public ≢ none)
  require_public-ok none = ground arith
  require_public-ok (some u) = ground arith

  pub check_catalog-HasCatalog :
      (public : Option Url) → (check_catalog host c public ≡ ok tt) ↔ HasCatalog host c public
  unfolding check_catalog validate_url
  check_catalog-HasCatalog public = elim (Bool-cases (is_blank c.catalog_base_url)) [
    | inl blank ↦
        rw blank
          ((λ e. inl (ground (arith, text_eq_iff (trim_space c.catalog_base_url) []))), (λ h. refl))
    | inr filled ↦ rw filled (
      (λ e.
          let (u, valid, named) = >>=-ok _ (λ url. require_public host c public) e in
          inr ((u, (check_url-ok _ u).0 valid), (require_public-ok public).0 named)),
      (λ h. elim h [
        | inl blank ↦ absurd (ground (arith, text_eq_iff (trim_space c.catalog_base_url) []))
        | inr ((u, web), named) ↦ rw ((check_url-ok _ u).1 web) ((require_public-ok public).1 named)
      ]),
    )
  ]

  require_origins-ok :
      (origins : List Text)
      → (require_origins host c origins ≡ ok tt)
        ↔ ((origins ≢ []) × (any (λ o. text_eq o (codes "*")) origins ≡ false))
  require_origins-ok [] = ground arith
  require_origins-ok (o ∷ os) = ground arith

  pub check_cors-HasOrigins :
      (check_cors host c ≡ ok tt) ↔ ((c.enable_cors ≡ false) ⊎ HasOrigins host c)
  unfolding check_cors
  check_cors-HasOrigins = ground (arith, require_origins-ok (split_csv c.cors_allowed_origins))

  require_parsed-ok :
      (r : Option (List IpNet)) (e : ConfigError) → (require_parsed host c r e ≡ ok tt) ↔ (r ≢ none)
  require_parsed-ok none e = ground arith
  require_parsed-ok (some nets) e = ground arith

  pub check_internal-HasAllowlist :
      (check_internal host c ≡ ok tt) ↔ ((c.internal_enable ≡ false) ⊎ HasAllowlist host c)
  unfolding check_internal
  check_internal-HasAllowlist = ground (
    arith,
    text_eq_iff (trim_space c.internal_allowed_cidrs) [],
    require_parsed-ok (parse_cidrs host.parse_cidr c.internal_allowed_cidrs) invalid_internal_cidrs,
  )

  pub check_proxies-ok : (check_proxies host c ≡ ok tt) ↔ (
      (trim_space c.trusted_proxy_cidrs ≡ [])
      ⊎ (parse_cidrs host.parse_cidr c.trusted_proxy_cidrs ≢ none))
  unfolding check_proxies
  check_proxies-ok = ground (
    arith,
    text_eq_iff (trim_space c.trusted_proxy_cidrs) [],
    require_parsed-ok (parse_cidrs host.parse_cidr c.trusted_proxy_cidrs) invalid_trusted_cidrs,
  )

  pub check_auth-HasAuth : (check_auth host c ≡ ok tt) ↔ HasAuth host c
  unfolding check_auth
  check_auth-HasAuth =
      let mode = to_lower (trim_space c.origin_auth_mode) in
      ground (
        arith,
        text_eq_iff mode [],
        text_eq_iff mode (codes "none"),
        text_eq_iff mode (codes "hmac"),
        text_eq_iff (trim_space c.origin_hmac_secret_path) [],
        check_secret-ok (host.read_file (trim_space c.origin_hmac_secret_path)),
      )
