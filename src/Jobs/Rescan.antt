-- ===== src/Jobs/Rescan.antt =====
-- internal/jobs/rescan_job.go and RunRescan of internal/internalapi/rescan_handler.go: the scan's
-- result goes into the assets table. The scan is an argument, since it reads no table.
pub mod Effect
pub mod Counts
use audistro_provider.Prelude.{ℕ, suc, ◌/◌, Option, none, some, List, [], ◌∷◌, map, Text}
use audistro_provider.Go.Int64.{ℤ, pos, negsuc, sub_ℕ}
use audistro_provider.Go.Time.{Instant, millisecond}
use audistro_provider.Scanner.{Asset, ScanResult}
use audistro_provider.Repository.Db.{Db, Query, ◌>>=◌, ◌>>◌, pure}
use audistro_provider.Repository.Assets.{AssetRecord, upsert_assets, mark_missing, count_active}

pub record RescanResult : Type 0 where
  pub scanned_assets : ℕ
  pub active_assets : ℕ
  pub missing_assets : ℕ

abbrev pub to_record : Asset → AssetRecord
to_record a = record {
  asset_id = a.asset_id;
  master_playlist_path = a.master_playlist_path;
  content_hash = a.content_hash;
  file_count = a.file_count;
  total_size_bytes = a.total_size_bytes;
  last_scanned_at = a.last_scanned_at;
}

abbrev pub seen_ids : List Asset → List Text
seen_ids = map (λ a. a.asset_id)

abbrev result_of : ScanResult → ℕ → ℕ → RescanResult
result_of scan active missing = record {
  scanned_assets = scan.scanned_assets;
  active_assets = active;
  missing_assets = missing;
}

unfoldable pub run_rescan_job : Option ScanResult → Instant → Query RescanResult
run_rescan_job none now db = (none, db)
run_rescan_job (some scan) now db =
    (do
      upsert_assets (map to_record scan.assets) now
      missing ← mark_missing (seen_ids scan.assets) now
      active ← count_active
      pure (result_of scan active missing))
      db

pub record RescanResponse : Type 0 where
  pub scanned_assets : ℕ
  pub active_assets : ℕ
  pub missing_assets : ℕ
  pub duration_ms : ℤ

-- `Duration.Milliseconds`, which truncates towards 0.
abbrev milliseconds : ℤ → ℤ
milliseconds (pos d) = pos (d / millisecond)
milliseconds (negsuc d) = sub_ℕ 0 (suc d / millisecond)

unfoldable pub run_rescan : Option ScanResult → Instant → Query RescanResponse
run_rescan none now db = (none, db)
run_rescan (some scan) now db =
    (do
      upsert_assets (map to_record scan.assets) now
      missing ← mark_missing (seen_ids scan.assets) now
      active ← count_active
      pure (record {
        scanned_assets = scan.scanned_assets;
        active_assets = active;
        missing_assets = missing;
        duration_ms = milliseconds scan.duration;
      }))
      db
