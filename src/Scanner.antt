-- ===== src/Scanner.antt =====
-- internal/scanner/scanner.go: the assets found under the assets root. The file system is an
-- argument: what each of its calls answers during one scan. SHA-256 is an argument too.
pub mod Files
use audistro_provider.Prelude.{
  ℕ, suc, ◌+◌, Bool, true, false, not, ◌&&◌, ◌||◌, Option, none, some, List, [], ◌∷◌, ◌++◌, map,
  Text, codes, text_eq, text_le, length, leb, all, if◌then◌else◌, ◌==◌, ltb,
}
use audistro_provider.Go.Int64.{ℤ, pos, ◌+ℤ◌}
use audistro_provider.Go.Time.{Instant}
use audistro_provider.Go.Strings.{to_lower, ext, has_prefix, has_suffix, decimal, hex}

pub record Asset : Type 0 where
  pub asset_id : Text
  pub master_playlist_path : Text
  pub content_hash : Text
  pub file_count : ℕ
  pub total_size_bytes : ℤ
  pub last_scanned_at : Instant

pub record ScanResult : Type 0 where
  pub assets : List Asset
  pub scanned_assets : ℕ
  pub duration : ℤ

pub record FileMeta : Type 0 where
  pub name : Text
  pub size : ℤ
  pub mod_unix : ℤ

-- The type of a directory entry, and what Lstat says of a path.
pub data Kind : Type 0 where
  symlink directory other : Kind

-- An entry of os.ReadDir; `info` is none where `entry.Info` fails.
pub record DirEntry : Type 0 where
  pub name : Text
  pub kind : Kind
  pub info : Option (ℤ × ℤ)

-- One scan's view of the world. `none` is an error; `cancelled` says whether the context is done
-- when the loop reaches an entry; `now` is read for each asset.
pub record FileSystem : Type 0 where
  pub root_made : Bool
  pub read_root : Option (List DirEntry)
  pub cancelled : Text → Bool
  pub lstat : Text → Option Kind
  pub read_dir : Text → Option (List DirEntry)
  pub now : Text → Instant
  pub elapsed : ℤ

abbrev pub is_id_byte : ℕ → Bool
is_id_byte c =
    leb b'a' c && leb c b'z'
    || leb b'A' c && leb c b'Z'
    || leb b'0' c && leb c b'9'
    || c == b'_'
    || c == b'-'

-- `^[a-zA-Z0-9_-]{1,128}$`
unfoldable pub is_asset_id : Text → Bool
is_asset_id s = leb 1 (length s) && leb (length s) 128 && all is_id_byte s

unfoldable pub is_allowed_init_mp4 : Text → Bool
is_allowed_init_mp4 name =
    let lower = to_lower name in
    if text_eq lower (codes "init.mp4")
    then true
    else has_prefix lower (codes "init-")
      && has_suffix lower (codes ".mp4")
      && ltb (length (codes "init-.mp4")) (length lower)

abbrev pub is_media_ext : Text → Bool
is_media_ext e = text_eq e (codes ".ts") || text_eq e (codes ".m4s")

unfoldable pub is_allowed_file : Text → Text → Bool
is_allowed_file name e =
    if text_eq e (codes ".m3u8") || is_media_ext e
    then true
    else text_eq e (codes ".mp4") && is_allowed_init_mp4 name

abbrev pub is_symlink : Kind → Bool
is_symlink symlink = true
is_symlink _ = false

abbrev pub is_dir : Kind → Bool
is_dir directory = true
is_dir _ = false

-- strings.EqualFold(name, "master.m3u8").
abbrev pub is_master : Text → Bool
is_master name = text_eq (to_lower name) (codes "master.m3u8")

abbrev pub is_playable : Text → Bool
is_playable name = is_media_ext (to_lower (ext name)) || is_allowed_init_mp4 name

abbrev pub is_listed : DirEntry → Bool
is_listed e = not (is_dir e.kind) && is_allowed_file e.name (to_lower (ext e.name))

-- What the loop over the entries of an asset has gathered.
pub record Gathered : Type 0 where
  pub has_master : Bool
  pub has_playable : Bool
  pub files : List FileMeta
  pub total_size : ℤ

-- How the loop ends: an error, an entry that is a symbolic link, or the end of the list.
pub data Walk : Type 0 where
  error linked : Walk
  done : Gathered → Walk

abbrev gather : Gathered → DirEntry → ℤ → ℤ → Gathered
gather g e size mod_unix = record {
  has_master = g.has_master || is_master e.name;
  has_playable = g.has_playable || is_playable e.name;
  files = g.files ++ record { name = e.name; size = size; mod_unix = mod_unix } ∷ [];
  total_size = g.total_size +ℤ size;
}

unfoldable pub walk : Gathered → List DirEntry → Walk
walk g [] = done g
walk g (e ∷ es) =
    let skip = walk g es in
    let stop = error in
    let take_it : Walk = elim e.info [
      | none ↦ stop
      | some (size, time) ↦ walk (gather g e size time) es
    ] in
    if is_symlink e.kind then linked else if is_listed e then take_it else skip

abbrev pub nothing : Gathered
nothing = record { has_master = false; has_playable = false; files = []; total_size = pos 0 }

unfoldable pub insert_file : FileMeta → List FileMeta → List FileMeta
insert_file f [] = f ∷ []
insert_file f (g ∷ gs) = if text_le f.name g.name then f ∷ g ∷ gs else g ∷ insert_file f gs

unfoldable pub sort_files : List FileMeta → List FileMeta
unfolding insert_file
sort_files [] = []
sort_files (f ∷ fs) = insert_file f (sort_files fs)

-- `%s|%d|%d\n` of each file.
unfoldable pub hash_input : List FileMeta → Text
hash_input [] = []
hash_input (f ∷ fs) =
    f.name ++ b'|' ∷ decimal f.size ++ b'|' ∷ decimal f.mod_unix ++ 10 ∷ hash_input fs

unfoldable pub insert_asset : Asset → List Asset → List Asset
insert_asset a [] = a ∷ []
insert_asset a (b ∷ bs) =
    if text_le a.asset_id b.asset_id then a ∷ b ∷ bs else b ∷ insert_asset a bs

unfoldable pub sort_assets : List Asset → List Asset
unfolding insert_asset
sort_assets [] = []
sort_assets (a ∷ bs) = insert_asset a (sort_assets bs)

module _ (sha256 : Text → Text) (fs : FileSystem) where
  unfoldable pub compute_content_hash : List FileMeta → Text
  unfolding sort_files hash_input
  compute_content_hash files = hex (sha256 (hash_input (sort_files files)))

  abbrev found : Text → Gathered → Option Asset
  found asset_id g =
      if not g.has_master || not g.has_playable
      then none
      else some (record {
        asset_id = asset_id;
        master_playlist_path = asset_id ++ codes "/master.m3u8";
        content_hash = compute_content_hash g.files;
        file_count = length g.files;
        total_size_bytes = g.total_size;
        last_scanned_at = fs.now asset_id;
      })

  -- The outer option is the error, the inner one the `ok` of `scanAssetDir`.
  abbrev of_walk : Text → Walk → Option (Option Asset)
  of_walk asset_id error = none
  of_walk asset_id linked = some none
  of_walk asset_id (done g) = some (found asset_id g)

  abbrev of_entries : Text → Option (List DirEntry) → Option (Option Asset)
  of_entries asset_id none = none
  of_entries asset_id (some entries) = of_walk asset_id (walk nothing entries)

  abbrev of_kind : Text → Option Kind → Option (Option Asset)
  of_kind asset_id none = none
  of_kind asset_id (some kind) =
      if is_symlink kind then some none else of_entries asset_id (fs.read_dir asset_id)

  unfoldable pub scan_asset_dir : Text → Option (Option Asset)
  unfolding compute_content_hash walk
  scan_asset_dir asset_id = of_kind asset_id (fs.lstat asset_id)

  abbrev pub is_candidate : DirEntry → Bool
  is_candidate e = not (is_symlink e.kind) && is_dir e.kind && is_asset_id e.name

  -- The loop of `Scan`.
  unfoldable pub scan_entries : List Asset → List DirEntry → Option (List Asset)
  scan_entries assets [] = some assets
  scan_entries assets (e ∷ es) =
      let skip = scan_entries assets es in
      let scanned : Option (List Asset) = elim (scan_asset_dir e.name) [
        | none ↦ none
        | some none ↦ scan_entries assets es
        | some (some a) ↦ scan_entries (assets ++ a ∷ []) es
      ] in
      if fs.cancelled e.name then none else if is_candidate e then scanned else skip

  abbrev of_assets : Option (List Asset) → Option ScanResult
  of_assets none = none
  of_assets (some assets) = some (record {
    assets = sort_assets assets;
    scanned_assets = length assets;
    duration = fs.elapsed;
  })

  abbrev of_root : Option (List DirEntry) → Option ScanResult
  of_root none = none
  of_root (some entries) = of_assets (scan_entries [] entries)

  -- `Scan`; its metrics are told "ok" or "error" by the result.
  unfoldable pub scan : Option ScanResult
  unfolding scan_entries scan_asset_dir sort_assets
  scan = if fs.root_made then of_root fs.read_root else none
