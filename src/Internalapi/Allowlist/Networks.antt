-- ===== src/Internalapi/Allowlist/Networks.antt =====
-- The networks of ip_allowlist.go and those of config.go.
use audistro_provider.Prelude.{
  ◌≡◌, refl, ap, ◌≢◌, ◌⊎◌, inl, inr, true, false, Option, none, some, List, [], ◌∷◌, Text, text_eq,
  text_eq_iff, text_eq_refl, sym, ◌∙◌, Option-cases, Bool-cases,
}
use audistro_provider.Go.Strings.{split, trim_left, trim_right, trim_space}
use audistro_provider.Go.Net.{NetLibrary}
use audistro_provider.Config.{Config, split_csv, trimmed_parts}
use audistro_provider.Config.Parts.{split_csv-trim_space}
use audistro_provider.Config.Validate.{
  Host, ok, validate, parse_cidrs, parse_entries, cons_to, some_entries,
}
use audistro_provider.Config.Validate.Valid.{validate-IsValid_iff}
use audistro_provider.Internalapi.Allowlist.{parse_each, parse_cidr_list, new_ip_allowlist, or_nil}

module _ {Ip IpNet : Type 0} (net : NetLibrary Ip IpNet) where
  parse_each-entries :
      (parts : List Text)
      → parse_each net parts ≡ parse_entries net.parse_cidr (trimmed_parts parts)
  unfolding parse_each trimmed_parts
  parse_each-entries [] = refl
  parse_each-entries (part ∷ rest) = elim (Bool-cases (text_eq (trim_space part) [])) [
    | inl blank ↦ rw blank (parse_each-entries rest)
    | inr filled ↦ rw (filled, parse_each-entries rest) refl
  ]

  parse_each-split_csv :
      (s : Text) → parse_each net (split b',' s) ≡ parse_entries net.parse_cidr (split_csv s)
  unfolding split_csv
  parse_each-split_csv s = parse_each-entries (split b',' s)

  cons_to-filled :
      (o : Option IpNet) (rest : Option (List IpNet)) (nets : List IpNet)
      → cons_to o rest ≡ some nets
      → nets ≢ []
  cons_to-filled none rest nets e = absurd cc
  cons_to-filled (some n) none nets e = absurd cc
  cons_to-filled (some n) (some rest) nets e = λ empty. cc

  some_entries-some :
      (entries : List Text) (nets : List IpNet)
      → some_entries net.parse_cidr entries ≡ some nets
      → (parse_entries net.parse_cidr entries ≡ some nets) × (nets ≢ [])
  some_entries-some [] nets e = cc
  some_entries-some (entry ∷ entries) nets e =
      (e, cons_to-filled (net.parse_cidr entry) (parse_entries net.parse_cidr entries) nets e)

  split_csv-blank : (csv : Text) → text_eq (trim_space csv) [] ≡ true → split_csv csv ≡ []
  unfolding split_csv trimmed_parts split trim_space trim_right trim_left text_eq
  split_csv-blank csv blank =
      let empty : trim_space csv ≡ [] = (text_eq_iff _ _).0 blank in
      sym (split_csv-trim_space csv) ∙ ap split_csv empty

  -- A list of networks that Validate accepts is read alike by the allow list.
  parse_cidr_list-parse_cidrs :
      (csv : Text) (nets : List IpNet)
      → parse_cidrs net.parse_cidr csv ≡ some nets
      → (parse_cidr_list net csv ≡ some nets) × (nets ≢ [])
  unfolding parse_cidr_list parse_cidrs
  parse_cidr_list-parse_cidrs csv nets e =
      let (parsed, filled) = some_entries-some (split_csv csv) nets e in
      elim (Bool-cases (text_eq (trim_space csv) [])) [
        | inl blank ↦
            let found : parse_entries net.parse_cidr [] ≡ some nets =
              rw (split_csv-blank csv blank) at parsed in
            absurd (filled cc)
        | inr other ↦ (
          rw (other, parse_each-split_csv (trim_space csv), split_csv-trim_space csv) parsed,
          filled,
        )
      ]

  abbrev IsRead : Text → List IpNet → Type 0
  IsRead csv nets = parse_cidrs net.parse_cidr csv ≡ some nets

  or_nil-IsRead :
      (csv : Text)
      → parse_cidrs net.parse_cidr csv ≢ none
      → IsRead csv (or_nil net (parse_cidr_list net csv))
        × (or_nil net (parse_cidr_list net csv) ≢ [])
  or_nil-IsRead csv there = elim (Option-cases (parse_cidrs net.parse_cidr csv)) [
    | inl missing ↦ absurd (there missing)
    | inr (nets, e) ↦
        let (read, filled) = parse_cidr_list-parse_cidrs csv nets e in rw read (e, filled)
  ]

  or_nil-blank : (csv : Text) → trim_space csv ≡ [] → or_nil net (parse_cidr_list net csv) ≡ []
  unfolding parse_cidr_list
  or_nil-blank csv blank = rw (blank, text_eq_refl []) refl

  -- Where Validate accepts the settings, the middleware goes by the networks that Validate parsed: the
  -- allowed ones, of which there is one at least where the internal API is open, and the trusted ones,
  -- of which there are none where none are given.
  pub validate-new_ip_allowlist :
      (host : Host IpNet) (cfg : Config)
      → host.parse_cidr ≡ net.parse_cidr
      → validate host cfg ≡ ok tt
      → ((cfg.internal_enable ≡ false)
          ⊎ ((parse_cidrs net.parse_cidr cfg.internal_allowed_cidrs
                ≡ some (new_ip_allowlist net cfg).allowed_cidrs)
              × ((new_ip_allowlist net cfg).allowed_cidrs ≢ [])))
        × (((trim_space cfg.trusted_proxy_cidrs ≡ [])
              × ((new_ip_allowlist net cfg).trusted_proxy_cidrs ≡ []))
            ⊎ (parse_cidrs net.parse_cidr cfg.trusted_proxy_cidrs
                ≡ some (new_ip_allowlist net cfg).trusted_proxy_cidrs))
  unfolding new_ip_allowlist
  validate-new_ip_allowlist host cfg same valid =
      let (internal, proxies) = ((validate-IsValid_iff host cfg).0 valid).networks in
      (
        elim internal [
          | inl closed ↦ inl closed
          | inr (filled, there) ↦ inr (or_nil-IsRead _ (rw same at there))
        ],
        elim proxies [
          | inl blank ↦ inl (blank, or_nil-blank _ blank)
          | inr there ↦ inr (or_nil-IsRead _ (rw same at there)).0
        ],
      )
