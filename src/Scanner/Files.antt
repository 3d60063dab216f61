-- ===== src/Scanner/Files.antt =====
-- Which directories scanner.go takes for assets, and what it says of them.
use audistro_provider.Prelude.{
  ◌≡◌, refl, Bool, true, false, ◌&&◌, ◌||◌, Option, none, some, List, [], ◌∷◌, ◌++◌, Text, arith,
  length, any, all, Option-cases, Bool-cases, inl, inr, codes, if◌then◌else◌,
}
use mathlib.Core.List.{append-nil, append_assoc}
use audistro_provider.Go.Int64.{ℤ, pos, ◌+ℤ◌}
use audistro_provider.Scanner.{
  Asset, FileMeta, Kind, symlink, DirEntry, FileSystem, is_symlink, is_master, is_playable,
  is_listed, Gathered, Walk, error, linked, done, gather, walk, nothing, scan_asset_dir,
  compute_content_hash, of_walk, of_entries, of_kind,
}

-- The files of a directory listing that count, in its order, where all their sizes are known.
abbrev pub file_of : DirEntry → Option (ℤ × ℤ) → List FileMeta
file_of e none = []
file_of e (some (size, time)) = record { name = e.name; size = size; mod_unix = time } ∷ []

abbrev pub files_of : List DirEntry → List FileMeta
files_of [] = []
files_of (e ∷ es) = (if is_listed e then file_of e e.info else []) ++ files_of es

abbrev pub sum_sizes : ℤ → List FileMeta → ℤ
sum_sizes total [] = total
sum_sizes total (f ∷ fs) = sum_sizes (total +ℤ f.size) fs

abbrev pub lists_master : DirEntry → Bool
lists_master e = is_listed e && is_master e.name

abbrev pub lists_playable : DirEntry → Bool
lists_playable e = is_listed e && is_playable e.name

abbrev pub is_link : DirEntry → Bool
is_link e = is_symlink e.kind

pub walk-done :
    (g g' : Gathered) (entries : List DirEntry)
    → walk g entries ≡ done g'
    → (any is_link entries ≡ false)
      × (g'.has_master ≡ (g.has_master || any lists_master entries))
      × (g'.has_playable ≡ (g.has_playable || any lists_playable entries))
      × (g'.files ≡ g.files ++ files_of entries)
      × (g'.total_size ≡ sum_sizes g.total_size (files_of entries))
unfolding walk
walk-done g g' [] e = ground (arith, append-nil g.files)
walk-done g g' (d ∷ entries) e = elim (Option-cases d.info) [
  | inl missing ↦ ground (arith, walk-done g g' entries)
  | inr ((size, time), known) ↦ ground (
    arith,
    walk-done g g' entries,
    walk-done (gather g d size time) g' entries,
    append_assoc g.files (record { name = d.name; size = size; mod_unix = time } ∷ [])
        (files_of entries),
  )
]

abbrev pub is_known : Option (ℤ × ℤ) → Bool
is_known none = false
is_known (some i) = true

abbrev pub is_readable : DirEntry → Bool
is_readable e = if is_listed e then is_known e.info else true

pub walk_total :
    (g : Gathered) (entries : List DirEntry)
    → any is_link entries ≡ false
    → all is_readable entries ≡ true
    → (g' : Gathered) × (walk g entries ≡ done g')
unfolding walk
walk_total g [] l r = (g, refl)
walk_total g (d ∷ entries) l r = elim (Bool-cases (is_listed d)) [
  | inl listed ↦ elim (Option-cases d.info) [
    | inl missing ↦ absurd (ground arith)
    | inr ((size, time), known) ↦
        let (g', e) = walk_total (gather g d size time) entries (ground arith) (ground arith) in
        (g', ground arith)
  ]
  | inr skipped ↦
      let (g', e) = walk_total g entries (ground arith) (ground arith) in (g', ground arith)
]

module _ (sha256 : Text → Text) (fs : FileSystem) (asset_id : Text) where
  -- The asset that a listing describes, where it holds a playlist and something to play.
  abbrev pub described : List DirEntry → Option Asset
  described entries =
      if any lists_master entries && any lists_playable entries
      then some (record {
        asset_id = asset_id;
        master_playlist_path = asset_id ++ codes "/master.m3u8";
        content_hash = compute_content_hash sha256 fs (files_of entries);
        file_count = length (files_of entries);
        total_size_bytes = sum_sizes (pos 0) (files_of entries);
        last_scanned_at = fs.now asset_id;
      })
      else none

  of_walk_done :
      (entries : List DirEntry) (g : Gathered)
      → walk nothing entries ≡ done g
      → of_walk sha256 fs asset_id (walk nothing entries) ≡ some (described entries)
  of_walk_done entries g e =
      let (links, master, playable, files, size) = walk-done nothing g entries e in
      rw e (ground arith)

  of_kind-some :
      (kind : Option Kind) (a : Asset)
      → of_kind sha256 fs asset_id kind ≡ some (some a)
      → of_entries sha256 fs asset_id (fs.read_dir asset_id) ≡ some (some a)
  of_kind-some none a e = cc
  of_kind-some (some symlink) a e = ground arith
  of_kind-some (some _) a e = e

  of_entries-some :
      (answer : Option (List DirEntry)) (a : Asset)
      → of_entries sha256 fs asset_id answer ≡ some (some a)
      → (entries : List DirEntry) × (answer ≡ some entries)
        × (of_walk sha256 fs asset_id (walk nothing entries) ≡ some (some a))
  of_entries-some none a e = cc
  of_entries-some (some entries) a e = (entries, refl, e)

  of_walk-some :
      (w : Walk) (a : Asset)
      → of_walk sha256 fs asset_id w ≡ some (some a)
      → (g : Gathered) × (w ≡ done g)
  of_walk-some error a e = cc
  of_walk-some linked a e = ground arith
  of_walk-some (done g) a e = (g, refl)

  -- An asset that the scan of a directory reports is the one that its listing describes: it holds a
  -- master playlist and a playable file, its count, size and hash are those of the listed files, and
  -- no entry of the directory is a symbolic link.
  pub scan_asset_dir-some :
      (a : Asset)
      → scan_asset_dir sha256 fs asset_id ≡ some (some a)
      → (entries : List DirEntry) × (fs.read_dir asset_id ≡ some entries)
        × (any is_link entries ≡ false)
        × (described entries ≡ some a)
  unfolding scan_asset_dir
  scan_asset_dir-some a e =
      let (entries, read, walked) = of_entries-some _ a (of_kind-some (fs.lstat asset_id) a e) in
      let (g, ended) = of_walk-some _ a walked in
      let facts = walk-done nothing g entries ended in
      let same = of_walk_done entries g ended in (entries, read, facts.0, ground arith)

  -- In a directory that is no link and holds none, whose listed files can all be read, the scan
  -- reports exactly what the listing describes, and never fails.
  pub scan_asset_dir_complete :
      (kind : Kind) (entries : List DirEntry)
      → fs.lstat asset_id ≡ some kind
      → is_symlink kind ≡ false
      → fs.read_dir asset_id ≡ some entries
      → any is_link entries ≡ false
      → all is_readable entries ≡ true
      → scan_asset_dir sha256 fs asset_id ≡ some (described entries)
  unfolding scan_asset_dir
  scan_asset_dir_complete kind entries stat real read links readable =
      let (g, ended) = walk_total nothing entries links readable in
      rw (stat, of_kind, real, read) (of_walk_done entries g ended)
