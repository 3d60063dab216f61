-- ===== src/Tests/Stores.antt =====
-- Runs of the database and the scanner.
use audistro_provider.Prelude.{◌⊎◌, false, none, []}
use audistro_provider.Repository.Migration.{Conn}
use audistro_provider.Prelude.{
  ◌⊎◌, ◌≡◌, refl, true, false, none, some, Text, codes, List, [], ◌∷◌, any, text_eq,
}
use audistro_provider.Go.Int64.{pos, ◌+ℤ◌, wrap}
use audistro_provider.Go.Strings.{to_lower, ext, has_prefix, hex}
use audistro_provider.Repository.Db.{active, to_seconds}
use audistro_provider.Repository.Assets.{upsert_assets}
use audistro_provider.Repository.Assets.Tables.{HasAssets, upserted}
use audistro_provider.Repository.Assets.Calls.{upsert_assets_atomic}
use audistro_provider.Jobs.Rescan.{to_record}
use audistro_provider.Scanner.{
  Asset, DirEntry, FileSystem, directory, other, is_allowed_file, is_allowed_init_mp4,
  scan_asset_dir,
}
use audistro_provider.Scanner.Files.{
  described, is_link, scan_asset_dir-some, scan_asset_dir_complete,
}
use audistro_provider.Tests.Fixtures.{song, noon, asset_of, talk_db}

upsert_assets_example :
    (((upsert_assets (to_record (asset_of song) ∷ []) noon (talk_db active)).0 ≡ none)
      × HasAssets
          (talk_db active)
          (talk_db active).assets
          (upsert_assets (to_record (asset_of song) ∷ []) noon (talk_db active)).1)
    ⊎ (((upsert_assets (to_record (asset_of song) ∷ []) noon (talk_db active)).0 ≡ some tt)
        × HasAssets
            (talk_db active)
            (upserted (to_record (asset_of song) ∷ []) (to_seconds noon) (talk_db active).assets)
            (upsert_assets (to_record (asset_of song) ∷ []) noon (talk_db active)).1)
upsert_assets_example = upsert_assets_atomic (to_record (asset_of song) ∷ []) noon (talk_db active)

-- A directory with a playlist and a segment, beside a file that is not served.
abbrev file : Text → DirEntry
file name = record { name = name; kind = other; info = some (pos 100, pos 1_577_836_800) }

abbrev listing : List DirEntry
listing = file (codes "master.m3u8") ∷ file (codes "notes.txt") ∷ file (codes "seg1.ts") ∷ []

abbrev one_directory : FileSystem
one_directory = record {
  root_made = true;
  read_root = some [];
  cancelled = λ id. false;
  lstat = λ id. some directory;
  read_dir = λ id. some listing;
  now = λ id. noon;
  elapsed = pos 5;
}

scan_complete_example :
    scan_asset_dir (λ t. t) one_directory song
    ≡ some (described (λ t. t) one_directory song listing)
unfolding is_allowed_file text_eq to_lower ext
scan_complete_example =
    scan_asset_dir_complete (λ t. t) one_directory song directory listing refl refl refl refl refl

abbrev scanned : Asset
scanned = record {
  asset_id = song;
  master_playlist_path = codes "song/master.m3u8";
  content_hash = [];
  file_count = 2;
  total_size_bytes = pos 200;
  last_scanned_at = noon;
}

-- With a hash that is always empty.
song_is_found : scan_asset_dir (λ t. []) one_directory song ≡ some (some scanned)
unfolding scan_asset_dir is_allowed_file text_eq to_lower ext is_allowed_init_mp4 has_prefix hex
    ◌+ℤ◌ wrap
song_is_found = refl

scan_asset_dir-some_example :
    (entries : List DirEntry) × (one_directory.read_dir song ≡ some entries)
    × (any is_link entries ≡ false)
    × (described (λ t. []) one_directory song entries ≡ some scanned)
scan_asset_dir-some_example = scan_asset_dir-some (λ t. []) one_directory song scanned song_is_found

-- A database of an older program, whose announcements have two columns only, and a driver of which
-- every call works.
abbrev older : Conn
older = record {
  schema = record {
    version = none;
    has_assets = true;
    announcements = some (codes "asset_id" ∷ codes "status" ∷ []);
    has_index = false;
  };
  answers = [];
}
