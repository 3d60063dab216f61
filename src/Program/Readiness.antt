-- ===== src/Program/Readiness.antt =====
-- When the program is ready, main.go, and what Validate of config.go has to do with it.
use audistro_provider.Prelude.{
  ◌≤◌, ◌≡◌, refl, ◌↔◌, ◌⊎◌, inl, inr, Bool, true, false, not, ◌&&◌, none, some, [], Text, codes,
  arith, length, ltb, if◌then◌else◌, text_eq,
}
use audistro_provider.Go.Strings.{to_lower, trim_space, trim_right}
use audistro_provider.Config.{Config}
use audistro_provider.Config.Validate.{Host, ok, validate, is_carriage_or_newline}
use audistro_provider.Config.Validate.Valid.{validate-IsValid_iff}
use audistro_provider.Originauth.{HmacSigner, new_hmac_signer}
use audistro_provider.Fssecure.{
  FileType, FileInfo, directory, symlink, regular, special, Answer, not_exist, failing, found,
  is_dir, Node, Verdict, clean, link_found, audit_failed, audit_no_symlinks,
}
use audistro_provider.Fssecure.Audit.{links, faults, audit_no_symlinks-Tells}
use audistro_provider.Program.{is_hmac, origin_signer, after_audit, after_stat, readiness_checker}

-- The database answers, the assets root is a directory, with no link and nothing unreadable below it
-- where links are audited, and the origin's authentication is ready where there is one.
pub record IsReady (cfg : Config) (origin_auth_ready pinged : Bool) (stat : Answer) (tree : Node)
    : Type 0 where
  pub database : pinged ≡ true
  pub root : (info : FileInfo) × (stat ≡ found info) × (info.file_type ≡ directory)
  pub tree_clean : (cfg.enforce_no_symlinks ≡ false) ⊎ ((links tree ≡ 0) × (faults tree ≡ 0))
  pub auth : (is_hmac cfg ≡ false) ⊎ (origin_auth_ready ≡ true)

dir_iff : (t : FileType) → (is_dir t ≡ true) ↔ (t ≡ directory)
dir_iff directory = ground arith
dir_iff symlink = ground arith
dir_iff regular = ground arith
dir_iff special = ground arith

after_audit-none :
    (auth_fails : Bool) (v : Verdict)
    → (after_audit auth_fails v ≡ none) ↔ ((v ≡ clean) × (auth_fails ≡ false))
after_audit-none auth_fails clean = ground arith
after_audit-none auth_fails link_found = ground arith
after_audit-none auth_fails audit_failed = ground arith

audited_iff :
    (enforce : Bool) (tree : Node)
    → ((if enforce then audit_no_symlinks tree else clean) ≡ clean)
      ↔ ((enforce ≡ false) ⊎ ((links tree ≡ 0) × (faults tree ≡ 0)))
audited_iff false tree = ground arith
audited_iff true tree = ground (arith, (audit_no_symlinks-Tells tree).0)

module _ (cfg : Config) (tree : Node) (auth_fails : Bool) where
  after_stat-none :
      (stat : Answer)
      → (after_stat cfg tree auth_fails stat ≡ none) ↔ (
          ((info : FileInfo) × (stat ≡ found info) × (info.file_type ≡ directory))
          × ((cfg.enforce_no_symlinks ≡ false) ⊎ ((links tree ≡ 0) × (faults tree ≡ 0)))
          × (auth_fails ≡ false))
  after_stat-none not_exist = ((λ e. cc), (λ h. cc))
  after_stat-none failing = ((λ e. cc), (λ h. cc))
  after_stat-none (found info) = (
    (λ e.
        let (kind, rest) = opened.0 e in
        ((info, refl, kind), (audited_iff cfg.enforce_no_symlinks tree).0 rest.0, rest.1)),
    (λ ((i, same, kind), audited, ready).
        let eq : i ≡ info = cc in
        opened.1 (rw eq at kind, ((audited_iff cfg.enforce_no_symlinks tree).1 audited, ready))),
  )
    where
      opened : (after_stat cfg tree auth_fails (found info) ≡ none) ↔ (
          (info.file_type ≡ directory)
          × (((if cfg.enforce_no_symlinks then audit_no_symlinks tree else clean) ≡ clean)
              × (auth_fails ≡ false)))
      opened = ground (
        arith,
        dir_iff info.file_type,
        after_audit-none auth_fails
            (if cfg.enforce_no_symlinks then audit_no_symlinks tree else clean),
      )

-- The program is ready exactly where the database answers, the assets root is a directory, the audit,
-- if links are audited, meets no link and nothing unreadable, and the origin's authentication is ready
-- if the mode is hmac.
pub readiness_checker-IsReady_iff :
    (cfg : Config) (origin_auth_ready pinged : Bool) (stat : Answer) (tree : Node)
    → (readiness_checker cfg origin_auth_ready pinged stat tree ≡ none)
      ↔ IsReady cfg origin_auth_ready pinged stat tree
unfolding readiness_checker
readiness_checker-IsReady_iff cfg ready false stat tree =
    ((λ e. cc), (λ h. let closed = h.database in cc))
readiness_checker-IsReady_iff cfg ready true stat tree = (
  (λ e.
      let (root, audited, auth) = (after_stat-none cfg tree (is_hmac cfg && not ready) stat).0 e in
      record { database = refl; root = root; tree_clean = audited; auth = ground arith }),
  (λ h.
      (after_stat-none cfg tree (is_hmac cfg && not ready) stat).1
        (h.root, h.tree_clean, ground arith)),
)

module _ {IpNet : Type 0} (host : Host IpNet) (cfg : Config) (provider_id : Text) where
  plain_mode :
      (to_lower (trim_space cfg.origin_auth_mode) ≡ [])
        ⊎ (to_lower (trim_space cfg.origin_auth_mode) ≡ codes "none")
      → is_hmac cfg ≡ false
  unfolding text_eq
  plain_mode (inl e) = rw e refl
  plain_mode (inr e) = rw e refl

  -- Settings that Validate accepts, with a path that has no white space around it, give a signer where
  -- the mode is hmac, with the secret that Validate read, of 16 bytes or more; and where the mode is
  -- not hmac none is needed. The file is as Validate read it.
  pub validate-origin_signer :
      validate host cfg ≡ ok tt
      → trim_space cfg.origin_hmac_secret_path ≡ cfg.origin_hmac_secret_path
      → ((origin_signer host.read_file cfg provider_id).0 ≡ true)
        × ((is_hmac cfg ≡ false)
            ⊎ ((s : HmacSigner) × ((origin_signer host.read_file cfg provider_id).1 ≡ some s)
                × (16 ≤ length s.secret)
                × (s.provider_id ≡ provider_id)))
  unfolding origin_signer new_hmac_signer text_eq
  validate-origin_signer valid exact = elim ((validate-IsValid_iff host cfg).0 valid).auth [
    | inl unsigned ↦ let plain = plain_mode unsigned in rw plain (refl, inl refl)
    | inr (mode, (filled, (bytes, at, long))) ↦
        let signed : is_hmac cfg ≡ true = rw mode refl in
        let there : host.read_file cfg.origin_hmac_secret_path ≡ some bytes = rw exact at at in
        let enough : ltb (length (trim_right is_carriage_or_newline bytes)) 16 ≡ false =
          ground arith in
        rw (signed, there, enough) (refl, inr (_, refl, long, refl))
  ]
