-- ===== src/Assets/Paths.antt =====
-- internal/assets/validate.go, and parseAssetPath and parseRequest of internal/assets/handler.go:
-- from the path of a request to the file it names. A directory is its absolute, clean path as the
-- list of its elements.
pub mod Names
pub mod Safety
use audistro_provider.Prelude.{
  ℕ, Bool, true, false, not, ◌&&◌, ◌||◌, Option, none, some, List, [], ◌∷◌, ◌++◌, Text, codes,
  length, all, leb, ltb, ◌==◌, text_eq, if◌then◌else◌,
}
use audistro_provider.Go.Strings.{
  to_lower, has_prefix, trim_prefix, contains_text, split, Cut, whole, parts, split_two, ext,
}
use audistro_provider.Scanner.{is_asset_id, is_id_byte}

abbrev pub of_cut : Cut → Option (Text × Text)
of_cut (whole s) = none
of_cut (parts s t) = some (s, t)

abbrev pub prefix : Text
prefix = codes "/assets/"

unfoldable pub parse_asset_path : Text → Option (Text × Text)
parse_asset_path path =
    if not (has_prefix path prefix)
    then none
    else if text_eq (trim_prefix path prefix) []
    then none
    else of_cut (split_two b'/' (trim_prefix path prefix))

-- `validateAssetID`, with the regular expression of the scanner.
unfoldable pub validate_asset_id : Text → Bool
validate_asset_id asset_id = is_asset_id asset_id

abbrev pub is_name_byte : ℕ → Bool
is_name_byte c = is_id_byte c || c == b'.'

-- `validateFilename`; the last test is `^[a-zA-Z0-9_.-]{1,256}$`.
unfoldable pub validate_filename : Text → Bool
validate_filename filename =
    if text_eq filename []
    then false
    else if contains_text filename (codes "..")
    then false
    else if contains_text filename (codes "/") || contains_text filename (b'\\' ∷ [])
    then false
    else leb (length filename) 256 && all is_name_byte filename

-- The part of `validateExtension` for ".mp4". A name that has passed holds no slash, so that
-- filepath.Base gives it back.
abbrev pub is_init_name : Text → Bool
is_init_name base =
    text_eq base (codes "init.mp4")
    || has_prefix base (codes "init-") && ltb (length (codes "init-.mp4")) (length base)

abbrev pub of_ext : Text → Text → Option Text
of_ext filename e =
    if text_eq e (codes ".m3u8") || text_eq e (codes ".ts") || text_eq e (codes ".m4s")
    then some e
    else if text_eq e (codes ".mp4")
    then if is_init_name (to_lower filename) then some e else none
    else none

unfoldable pub validate_extension : Text → Option Text
validate_extension filename = of_ext filename (to_lower (ext filename))

-- The elements of a directory without the last one; the root stays.
abbrev pub parent : List Text → List Text
parent [] = []
parent (e ∷ []) = []
parent (e ∷ f ∷ es) = e ∷ parent (f ∷ es)

abbrev pub step_into : List Text → Text → List Text
step_into dir e =
    if text_eq e [] || text_eq e (codes ".")
    then dir
    else if text_eq e (codes "..")
    then parent dir
    else dir ++ (e ∷ [])

unfoldable pub step_through : List Text → List Text → List Text
step_through dir [] = dir
step_through dir (e ∷ es) = step_through (step_into dir e) es

-- filepath.Join of a clean directory and a relative path.
unfoldable pub join : List Text → Text → List Text
unfolding step_through
join dir path = step_through dir (split b'/' path)

-- `ensureWithinRoot`: the target begins with the root and goes on below it.
unfoldable pub is_within_root : List Text → List Text → Bool
is_within_root [] [] = false
is_within_root [] (e ∷ target) = true
is_within_root (r ∷ root) [] = false
is_within_root (r ∷ root) (e ∷ target) = text_eq r e && is_within_root root target

pub record AssetRequest : Type 0 where
  pub asset_id : Text
  pub filename : Text
  pub ext : Text
  pub root : List Text
  pub target : List Text

-- A parsed request, or the status of the refusal.
pub data Parsed : Type 0 where
  accepted : AssetRequest → Parsed
  refused : ℕ → Parsed

abbrev pub of_target : Text → Text → Text → List Text → List Text → Parsed
of_target asset_id filename e root target =
    if is_within_root root target
    then accepted
        (record { asset_id = asset_id; filename = filename; ext = e; root = root; target = target })
    else refused 400

abbrev pub with_ext : List Text → Text → Text → Option Text → Parsed
with_ext assets_root asset_id filename none = refused 400
with_ext assets_root asset_id filename (some e) =
    of_target asset_id filename e (join assets_root asset_id)
      (join (join assets_root asset_id) filename)

abbrev pub of_names : List Text → Option (Text × Text) → Parsed
of_names assets_root none = refused 404
of_names assets_root (some (asset_id, filename)) =
    if not (validate_asset_id asset_id)
    then refused 400
    else if text_eq filename []
    then refused 404
    else if not (validate_filename filename)
    then refused 400
    else with_ext assets_root asset_id filename (validate_extension filename)

unfoldable pub parse_request : List Text → Text → Parsed
unfolding parse_asset_path
parse_request assets_root path = of_names assets_root (parse_asset_path path)
