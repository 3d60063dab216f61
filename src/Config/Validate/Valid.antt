-- ===== src/Config/Validate/Valid.antt =====
-- Which settings Validate of config.go lets pass.
use audistro_provider.Prelude.{◌≡◌, refl, ◌↔◌, ◌⊎◌, inl, inr, Bool, true, false, [], codes, arith}
use audistro_provider.Go.Strings.{to_lower, trim_space}
use audistro_provider.Config.{Config}
use audistro_provider.Config.Validate.{
  Checked, ok, error, ◌>>=◌, ◌>>◌, Host, check_mode, check_limits, check_paths, after_public,
  after_mode, check_public, check_origin, check_auth, check_catalog, check_cors, check_internal,
  check_proxies, validate,
}
use audistro_provider.Config.Validate.Conditions.{HasStorage, IsValid}
use audistro_provider.Config.Validate.Steps.{
  >>=-ok, check_limits-HasLimits, check_mode-ok, check_paths-HasPaths, check_public-IsPublic,
  check_origin-HasOrigin, check_catalog-HasCatalog, check_cors-HasOrigins,
  check_internal-HasAllowlist, check_proxies-ok, check_auth-HasAuth,
}

>>-ok : (a b k : Checked Unit) → (a >> (b >> k) ≡ ok tt) ↔ ((a ≡ ok tt) × (b ≡ ok tt) × (k ≡ ok tt))
>>-ok (ok a) (ok b) k = ground arith
>>-ok (ok a) (error e) k = ground arith
>>-ok (error e) b k = ground arith

all-ok :
    (a b c d e f : Checked Unit)
    → (a >> (b >> (c >> (d >> (e >> f)))) ≡ ok tt)
      ↔ ((a ≡ ok tt) × (b ≡ ok tt) × (c ≡ ok tt) × (d ≡ ok tt) × (e ≡ ok tt) × (f ≡ ok tt))
all-ok a b c d e f =
    ground (arith, >>-ok a b (c >> (d >> (e >> f))), >>-ok c d (e >> f), >>-ok e f (ok tt))

module _ {IpNet : Type 0} (host : Host IpNet) (c : Config) where
  abbrev IsMode : Bool → Type 0
  IsMode fetches =
      ((fetches ≡ false)
        × ((to_lower (trim_space c.storage_mode) ≡ [])
            ⊎ (to_lower (trim_space c.storage_mode) ≡ codes "filesystem")))
      ⊎ ((fetches ≡ true)
          × ((to_lower (trim_space c.storage_mode) ≡ codes "proxy")
              ⊎ (to_lower (trim_space c.storage_mode) ≡ codes "hybrid")))

  stored :
      (fetches : Bool) → IsMode fetches → check_origin host c fetches ≡ ok tt → HasStorage host c
  stored fetches (inl (is_local, mode)) origin = inl mode
  stored fetches (inr (is_remote, mode)) origin =
      inr (mode, (check_origin-HasOrigin host c).0 (rw is_remote at origin))

  asked :
      HasStorage host c → (fetches : Bool) × IsMode fetches × (check_origin host c fetches ≡ ok tt)
  unfolding check_origin
  asked (inl mode) = (false, inl (refl, mode), refl)
  asked (inr (mode, origin)) = (true, inr (refl, mode), (check_origin-HasOrigin host c).1 origin)

  validate-IsValid : validate host c ≡ ok tt → IsValid host c
  unfolding validate
  validate-IsValid e =
      let (fetches, mode, e1) = >>=-ok (check_mode c) (λ b. after_mode host c b) e in
      let (limits, paths, e2) =
        (>>-ok (check_limits c) (check_paths host c)
            (check_public host c >>= λ u. after_public host c fetches u)).0
          e1 in
      let (public, at_public, e3) =
        >>=-ok (check_public host c) (λ u. after_public host c fetches u) e2 in
      let (origin, auth, catalog, cors, internal, proxies) =
        (all-ok (check_origin host c fetches) (check_auth host c) (check_catalog host c public)
            (check_cors host c) (check_internal host c) (check_proxies host c)).0
          e3 in
      record {
        limits = (check_limits-HasLimits c).0 limits;
        paths = (check_paths-HasPaths host c).0 paths;
        storage = stored fetches ((check_mode-ok c fetches).0 mode) origin;
        auth = (check_auth-HasAuth host c).0 auth;
        urls = (
          public,
          (check_public-IsPublic host c public).0 at_public,
          (check_catalog-HasCatalog host c public).0 catalog,
        );
        origins = (check_cors-HasOrigins host c).0 cors;
        networks =
            ((check_internal-HasAllowlist host c).0 internal, (check_proxies-ok host c).0 proxies);
      }

  IsValid-validate : IsValid host c → validate host c ≡ ok tt
  unfolding validate
  IsValid-validate v =
      let (public, is_public, catalog) = v.urls in
      let (fetches, mode, origin) = asked v.storage in
      rw ((check_mode-ok c fetches).1 mode) (
        (>>-ok (check_limits c) (check_paths host c)
            (check_public host c >>= λ u. after_public host c fetches u)).1
          (
            (check_limits-HasLimits c).1 v.limits,
            (check_paths-HasPaths host c).1 v.paths,
            rw ((check_public-IsPublic host c public).1 is_public) (
                (all-ok (check_origin host c fetches) (check_auth host c)
                    (check_catalog host c public) (check_cors host c) (check_internal host c)
                    (check_proxies host c)).1
                  (
                    origin,
                    (check_auth-HasAuth host c).1 v.auth,
                    (check_catalog-HasCatalog host c public).1 catalog,
                    (check_cors-HasOrigins host c).1 v.origins,
                    (check_internal-HasAllowlist host c).1 v.networks.0,
                    (check_proxies-ok host c).1 v.networks.1,
                  )),
          ))

  -- Settings pass exactly where they are valid: the limits are positive, the directories can be made,
  -- a mode that asks an origin has a web URL for it, hmac has a secret of at least 16 bytes, the public
  -- URL is https unless that is waived and is there where a catalog is, CORS has origins and none is
  -- `*`, and the internal API has networks that parse.
  pub validate-IsValid_iff : (validate host c ≡ ok tt) ↔ IsValid host c
  validate-IsValid_iff = (validate-IsValid, IsValid-validate)
