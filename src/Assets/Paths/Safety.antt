-- ===== src/Assets/Paths/Safety.antt =====
-- Which requests reach a file, and that the file lies in the directory of its asset, handler.go.
use audistro_provider.Prelude.{
  ℕ, ◌≡◌, refl, true, false, Option, none, some, List, [], ◌∷◌, ◌++◌, Text, text_eq, arith,
  Bool-cases, inl, inr, ap, ◌∙◌,
}
use audistro_provider.Go.Strings.{has_prefix, trim_prefix, split, Cut, whole, parts}
use audistro_provider.Scanner.{is_asset_id}
use audistro_provider.Assets.Paths.{
  prefix, parse_asset_path, validate_asset_id, validate_filename, validate_extension, AssetRequest,
  accepted, of_cut, with_ext, of_names, parse_request,
}
use audistro_provider.Assets.Paths.Names.{
  IsCut, is_plain, has_prefix-trim_prefix, split_two-IsCut, id-plain, is_within_root-append,
  join-asset_id, join-filename, validate_filename-bytes, split_two-append,
}

-- What is true of a request that was accepted.
pub record IsConfined (assets_root : List Text) (path : Text) (req : AssetRequest) : Type 0 where
  pub names : path ≡ prefix ++ req.asset_id ++ b'/' ∷ req.filename
  pub root : req.root ≡ assets_root ++ (req.asset_id ∷ [])
  pub target : req.target ≡ (assets_root ++ (req.asset_id ∷ [])) ++ (req.filename ∷ [])
  pub asset_id : validate_asset_id req.asset_id ≡ true
  pub filename : validate_filename req.filename ≡ true
  pub ext : validate_extension req.filename ≡ some req.ext

of_cut-some :
    (sep : ℕ) (s a b : Text) (cut : Cut)
    → IsCut sep s cut
    → of_cut cut ≡ some (a, b)
    → s ≡ a ++ sep ∷ b
of_cut-some sep s a b (whole t) h e = cc
of_cut-some sep s a b (parts c d) h e = ground (arith, h, e)

parse_asset_path-some :
    (path asset_id filename : Text)
    → parse_asset_path path ≡ some (asset_id, filename)
    → path ≡ prefix ++ asset_id ++ b'/' ∷ filename
unfolding parse_asset_path
parse_asset_path-some path asset_id filename e = elim (Bool-cases (has_prefix path prefix)) [
  | inr other ↦ ground arith
  | inl begins ↦ elim (Bool-cases (text_eq (trim_prefix path prefix) [])) [
    | inl ends ↦ ground arith
    | inr goes_on ↦
        has_prefix-trim_prefix path prefix begins
        ∙ ap (λ t. prefix ++ t)
            (of_cut-some b'/' (trim_prefix path prefix) asset_id filename _
              (split_two-IsCut b'/' (trim_prefix path prefix)) (rw (begins, goes_on) at e))
  ]
]

append-some : (s t : Text) (c : ℕ) → text_eq (s ++ c ∷ t) [] ≡ false
unfolding text_eq
append-some [] t c = refl
append-some (d ∷ s) t c = refl

parse_asset_path-append :
    (asset_id filename : Text)
    → is_plain asset_id ≡ true
    → parse_asset_path (prefix ++ asset_id ++ b'/' ∷ filename) ≡ some (asset_id, filename)
unfolding parse_asset_path has_prefix trim_prefix
parse_asset_path-append asset_id filename plain =
    rw (append-some asset_id filename b'/', split_two-append asset_id filename plain) refl

valid_id-plain : (asset_id : Text) → validate_asset_id asset_id ≡ true → is_plain asset_id ≡ true
unfolding validate_asset_id is_asset_id
valid_id-plain asset_id valid = id-plain asset_id (ground arith)

-- The request of an asset and a file of it.
abbrev pub request_of : List Text → Text → Text → Text → AssetRequest
request_of assets_root asset_id filename e = record {
  asset_id = asset_id;
  filename = filename;
  ext = e;
  root = assets_root ++ (asset_id ∷ []);
  target = (assets_root ++ (asset_id ∷ [])) ++ (filename ∷ []);
}

with_ext-some :
    (assets_root : List Text) (asset_id filename e : Text)
    → validate_asset_id asset_id ≡ true
    → validate_filename filename ≡ true
    → validate_extension filename ≡ some e
    → with_ext assets_root asset_id filename (some e)
      ≡ accepted (request_of assets_root asset_id filename e)
with_ext-some assets_root asset_id filename e id name served =
    rw
      (
        join-asset_id assets_root asset_id id,
        join-filename (assets_root ++ (asset_id ∷ [])) filename e name served,
        is_within_root-append (assets_root ++ (asset_id ∷ [])) filename,
      )
      refl

accepted-IsConfined :
    (assets_root : List Text) (asset_id filename e : Text) (req : AssetRequest)
    → validate_asset_id asset_id ≡ true
    → validate_filename filename ≡ true
    → validate_extension filename ≡ some e
    → req ≡ request_of assets_root asset_id filename e
    → IsConfined assets_root (prefix ++ asset_id ++ b'/' ∷ filename) req
accepted-IsConfined assets_root asset_id filename e req id name served same = rw same (record {
  names = refl;
  root = refl;
  target = refl;
  asset_id = id;
  filename = name;
  ext = served;
})

with_ext-accepted :
    (assets_root : List Text) (asset_id filename : Text) (served : Option Text) (req : AssetRequest)
    → validate_asset_id asset_id ≡ true
    → validate_filename filename ≡ true
    → validate_extension filename ≡ served
    → with_ext assets_root asset_id filename served ≡ accepted req
    → IsConfined assets_root (prefix ++ asset_id ++ b'/' ∷ filename) req
with_ext-accepted assets_root asset_id filename none req id name served e = cc
with_ext-accepted assets_root asset_id filename (some x) req id name served e =
    accepted-IsConfined assets_root asset_id filename x req id name served
      (let whole_request = with_ext-some assets_root asset_id filename x id name served in cc)

of_names-valid :
    (assets_root : List Text) (asset_id filename : Text) (req : AssetRequest)
    → of_names assets_root (some (asset_id, filename)) ≡ accepted req
    → (validate_asset_id asset_id ≡ true)
      × (validate_filename filename ≡ true)
      × (with_ext assets_root asset_id filename (validate_extension filename) ≡ accepted req)
of_names-valid assets_root asset_id filename req e =
    elim (Bool-cases (validate_asset_id asset_id)) [
      | inr other ↦ ground arith
      | inl id ↦ elim (Bool-cases (text_eq filename [])) [
        | inl empty ↦ ground arith
        | inr named ↦ elim (Bool-cases (validate_filename filename)) [
          | inr other ↦ ground arith
          | inl name ↦ (id, name, rw (id, named, name) at e)
        ]
      ]
    ]

of_names-accepted :
    (assets_root : List Text) (path : Text) (parsed : Option (Text × Text)) (req : AssetRequest)
    → parse_asset_path path ≡ parsed
    → of_names assets_root parsed ≡ accepted req
    → IsConfined assets_root path req
of_names-accepted assets_root path none req split e = cc
of_names-accepted assets_root path (some (asset_id, filename)) req split e =
    let names = parse_asset_path-some path asset_id filename split in
    let (id, name, served) = of_names-valid assets_root asset_id filename req e in
    rw names (
      with_ext-accepted assets_root asset_id filename (validate_extension filename) req id name refl
        served)

-- A request that is accepted names an asset and a file in the path, both by their rules and with a
-- served extension, and its file is the one of that name in the asset's directory under the root.
pub parse_request-accepted :
    (assets_root : List Text) (path : Text) (req : AssetRequest)
    → parse_request assets_root path ≡ accepted req
    → IsConfined assets_root path req
unfolding parse_request
parse_request-accepted assets_root path req e =
    of_names-accepted assets_root path (parse_asset_path path) req refl e

-- Every path of a valid asset and a valid file with a served extension is accepted, under any root.
pub parse_request_complete :
    (assets_root : List Text) (asset_id filename e : Text)
    → validate_asset_id asset_id ≡ true
    → validate_filename filename ≡ true
    → validate_extension filename ≡ some e
    → parse_request assets_root (prefix ++ asset_id ++ b'/' ∷ filename)
      ≡ accepted (request_of assets_root asset_id filename e)
unfolding parse_request
parse_request_complete assets_root asset_id filename e id name served =
    let (bytes, some_name, clear) = validate_filename-bytes filename name in
    let joined = with_ext-some assets_root asset_id filename e id name served in
    rw (parse_asset_path-append asset_id filename (valid_id-plain asset_id id))
      (rw (id, some_name, name, served) joined)
