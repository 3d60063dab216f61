-- ===== src/Program/Names.antt =====
-- The names that main.go allows and those that the scanner takes.
use audistro_provider.Prelude.{
  ℕ, ◌≤◌, ◌≡◌, refl, ap, ◌∙◌, [], ◌∷◌, Text, arith, ◌==◌, if◌then◌else◌, Bool-cases, inl, inr,
}
use audistro_provider.Go.Strings.{to_lower, lower_byte, ext, ext_from}
use audistro_provider.Scanner.{is_allowed_file, is_allowed_init_mp4}
use audistro_provider.Program.{allowlisted_asset_name}

lower_byte-lower_byte : (c : ℕ) → lower_byte (lower_byte c) ≡ lower_byte c
lower_byte-lower_byte c = ground arith

to_lower-to_lower : (s : Text) → to_lower (to_lower s) ≡ to_lower s
unfolding to_lower
to_lower-to_lower [] = refl
to_lower-to_lower (c ∷ s) =
    rw (to_lower-to_lower s) (ap (λ d. d ∷ to_lower s) (lower_byte-lower_byte c))

-- Only letters change.
lower_byte-eq : (c d : ℕ) → d ≤ b'/' → (lower_byte c == d) ≡ (c == d)
lower_byte-eq c d h = ground arith

-- What ext_from has found after one byte.
abbrev next : Text → ℕ → Text → Text
next found c s = if c == b'/' then [] else if c == b'.' then c ∷ s else found

next-to_lower :
    (found : Text) (c : ℕ) (s : Text)
    → next (to_lower found) (lower_byte c) (to_lower s) ≡ to_lower (next found c s)
unfolding to_lower
next-to_lower found c s =
    rw (lower_byte-eq c b'/' (omega arith), lower_byte-eq c b'.' (omega arith))
      (elim (Bool-cases (c == b'/')) [
        | inl slash ↦ rw slash refl
        | inr other ↦ elim (Bool-cases (c == b'.')) [
          | inl dot ↦ rw (other, dot) refl
          | inr plain ↦ rw (other, plain) refl
        ]
      ])

to_lower-ext_from :
    (found s : Text) → ext_from (to_lower found) (to_lower s) ≡ to_lower (ext_from found s)
unfolding to_lower ext_from
to_lower-ext_from found [] = refl
to_lower-ext_from found (c ∷ s) =
    ap (λ f. ext_from f (to_lower s)) (next-to_lower found c s)
    ∙ to_lower-ext_from (next found c s) s

to_lower-ext : (s : Text) → to_lower (ext (to_lower s)) ≡ to_lower (ext s)
unfolding ext to_lower
to_lower-ext s = ap to_lower (to_lower-ext_from [] s) ∙ to_lower-to_lower (ext_from [] s)

-- A name is allowed by main exactly where the scanner takes a file of the name.
pub allowlisted_asset_name-is_allowed_file :
    (name : Text) → allowlisted_asset_name name ≡ is_allowed_file name (to_lower (ext name))
unfolding allowlisted_asset_name is_allowed_file is_allowed_init_mp4
allowlisted_asset_name-is_allowed_file name = rw (to_lower-ext name) (ground arith)
