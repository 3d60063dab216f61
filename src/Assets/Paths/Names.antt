-- ===== src/Assets/Paths/Names.antt =====
-- What the tests of names say of a path: how it splits and joins, validate.go.
use audistro_provider.Prelude.{
  ℕ, ◌≡◌, refl, Bool, true, false, not, none, some, List, [], ◌∷◌, ◌++◌, Text, codes, all, ◌==◌,
  text_eq, text_eq_iff, text_eq_refl, arith, Bool-cases, inl, inr, ap,
}
use audistro_provider.Go.Strings.{
  to_lower, has_prefix, trim_prefix, contains_text, split, Cut, whole, parts, prepend_cut,
  split_two, ext,
}
use audistro_provider.Scanner.{is_asset_id, is_id_byte}
use audistro_provider.Assets.Paths.{
  validate_asset_id, is_name_byte, validate_filename, validate_extension, step_through, join,
  is_within_root,
}

pub has_prefix-trim_prefix : (s p : Text) → has_prefix s p ≡ true → s ≡ p ++ trim_prefix s p
unfolding has_prefix trim_prefix
has_prefix-trim_prefix s [] h = refl
has_prefix-trim_prefix [] (p ∷ ps) h = cc
has_prefix-trim_prefix (c ∷ s) (p ∷ ps) h = ground (arith, has_prefix-trim_prefix s ps)

-- What a cut says of the text.
abbrev pub IsCut : ℕ → Text → Cut → Type 0
IsCut sep s (whole t) = s ≡ t
IsCut sep s (parts a b) = s ≡ a ++ sep ∷ b

prepend_cut-IsCut :
    (sep c : ℕ) (s : Text) (cut : Cut) → IsCut sep s cut → IsCut sep (c ∷ s) (prepend_cut c cut)
prepend_cut-IsCut sep c s (whole t) h = ap (λ u. c ∷ u) h
prepend_cut-IsCut sep c s (parts a b) h = ap (λ u. c ∷ u) h

pub split_two-IsCut : (sep : ℕ) (s : Text) → IsCut sep s (split_two sep s)
unfolding split_two
split_two-IsCut sep [] = refl
split_two-IsCut sep (c ∷ s) = elim (Bool-cases (c == sep)) [
  | inl here ↦ rw here (ground arith)
  | inr on ↦ rw on (prepend_cut-IsCut sep c s (split_two sep s) (split_two-IsCut sep s))
]

abbrev pub is_plain : Text → Bool
is_plain = all (λ c. not (c == b'/'))

split_plain : (s : Text) → is_plain s ≡ true → split b'/' s ≡ s ∷ []
unfolding split
split_plain [] h = refl
split_plain (c ∷ s) h = ground (arith, split_plain s)

step_plain :
    (dir : List Text) (e : Text)
    → is_plain e ≡ true
    → text_eq e [] ≡ false
    → text_eq e (codes ".") ≡ false
    → text_eq e (codes "..") ≡ false
    → join dir e ≡ dir ++ (e ∷ [])
unfolding join step_through
step_plain dir e plain some_name no_dot no_dots = rw (split_plain e plain) (ground arith)

pub is_within_root-append :
    (root : List Text) (e : Text) → is_within_root root (root ++ (e ∷ [])) ≡ true
unfolding is_within_root
is_within_root-append [] e = refl
is_within_root-append (r ∷ root) e = ground (arith, text_eq_refl r, is_within_root-append root e)

pub id-plain : (s : Text) → all is_id_byte s ≡ true → is_plain s ≡ true
id-plain [] h = refl
id-plain (c ∷ s) h = ground (arith, id-plain s)

name-plain : (s : Text) → all is_name_byte s ≡ true → is_plain s ≡ true
name-plain [] h = refl
name-plain (c ∷ s) h = ground (arith, name-plain s)

id-no_dot :
    (s : Text)
    → all is_id_byte s ≡ true
    → (text_eq s (codes ".") ≡ false) × (text_eq s (codes "..") ≡ false)
unfolding text_eq
id-no_dot [] h = (refl, refl)
id-no_dot (c ∷ s) h = ground arith

-- The directory of a valid asset.
pub join-asset_id :
    (dir : List Text) (asset_id : Text)
    → validate_asset_id asset_id ≡ true
    → join dir asset_id ≡ dir ++ (asset_id ∷ [])
unfolding validate_asset_id is_asset_id text_eq
join-asset_id dir [] valid = ground arith
join-asset_id dir (c ∷ s) valid =
    let ids : all is_id_byte (c ∷ s) ≡ true = ground arith in
    let (no_dot, no_dots) = id-no_dot (c ∷ s) ids in
    step_plain dir (c ∷ s) (id-plain (c ∷ s) ids) refl no_dot no_dots

not_equal : (s t : Text) → (s ≡ t → ⊥) → text_eq s t ≡ false
not_equal s t differs = elim (Bool-cases (text_eq s t)) [
  | inl same ↦ absurd (differs ((text_eq_iff s t).0 same))
  | inr other ↦ other
]

dot-unserved : validate_extension (codes ".") ≡ none
unfolding validate_extension to_lower ext text_eq
dot-unserved = refl

dots-contained : contains_text (codes "..") (codes "..") ≡ true
unfolding contains_text has_prefix
dots-contained = refl

pub validate_filename-bytes :
    (name : Text)
    → validate_filename name ≡ true
    → (all is_name_byte name ≡ true)
      × (text_eq name [] ≡ false)
      × (contains_text name (codes "..") ≡ false)
unfolding validate_filename
validate_filename-bytes name valid = ground arith

-- A valid name with a served extension is an element of a path, and neither of the dots.
valid-name :
    (name e : Text)
    → validate_filename name ≡ true
    → validate_extension name ≡ some e
    → (all is_name_byte name ≡ true)
      × (text_eq name [] ≡ false)
      × (text_eq name (codes ".") ≡ false)
      × (text_eq name (codes "..") ≡ false)
      × (contains_text name (codes "..") ≡ false)
valid-name name e valid served =
    let (bytes, some_name, clear) = validate_filename-bytes name valid in
    (
      bytes,
      some_name,
      not_equal name (codes ".") (λ dot. cc (dot-unserved, rw dot at served)),
      not_equal name (codes "..") (λ dots. cc (dots-contained, rw dots at clear)),
      clear,
    )

-- The file of a valid name.
pub join-filename :
    (dir : List Text) (name e : Text)
    → validate_filename name ≡ true
    → validate_extension name ≡ some e
    → join dir name ≡ dir ++ (name ∷ [])
join-filename dir name e valid served =
    let (bytes, some_name, no_dot, no_dots, clear) = valid-name name e valid served in
    step_plain dir name (name-plain name bytes) some_name no_dot no_dots

pub split_two-append : (s t : Text) → is_plain s ≡ true → split_two b'/' (s ++ b'/' ∷ t) ≡ parts s t
unfolding split_two
split_two-append [] t h = refl
split_two-append (c ∷ s) t h = ground (arith, split_two-append s t)
