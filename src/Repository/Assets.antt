-- ===== src/Repository/Assets.antt =====
-- internal/repository/assets_repo.go: the assets table.
pub mod Tables
pub mod Calls
pub mod Keys
pub mod Active
use audistro_provider.Prelude.{
  ℕ, zero, suc, ◌+◌, Bool, true, false, not, ◌&&◌, Option, none, some, List, [], ◌∷◌, map, Text,
  text_eq, text_le, any, count, if◌then◌else◌,
}
use audistro_provider.Go.Int64.{ℤ}
use audistro_provider.Go.Map.{Map, lookup, insert}
use audistro_provider.Go.Time.{Instant}
use audistro_provider.Repository.Db.{
  AssetStatus, active, missing, AssetRow, Db, Query, ◌>>=◌, ◌>>◌, pure, call, counted_call,
  transaction, to_seconds,
}

pub record AssetRecord : Type 0 where
  pub asset_id : Text
  pub master_playlist_path : Text
  pub content_hash : Text
  pub file_count : ℕ
  pub total_size_bytes : ℤ
  pub last_scanned_at : Instant

abbrev pub created_or : Option AssetRow → ℕ → ℕ
created_or none now = now
created_or (some row) now = row.created_at

-- The row that INSERT … ON CONFLICT DO UPDATE leaves, given the row of the key before it.
abbrev pub row_of : AssetRecord → ℕ → Option AssetRow → AssetRow
row_of asset now old = record {
  status = active;
  master_playlist_path = asset.master_playlist_path;
  content_hash = asset.content_hash;
  file_count = asset.file_count;
  total_size_bytes = asset.total_size_bytes;
  last_scanned_at = to_seconds asset.last_scanned_at;
  created_at = created_or old now;
  updated_at = now;
  missing_at = none;
}

unfoldable pub upsert_row : AssetRecord → ℕ → Map AssetRow → Map AssetRow
upsert_row asset now table =
    insert asset.asset_id (row_of asset now (lookup asset.asset_id table)) table

unfoldable pub exec_upserts : List AssetRecord → ℕ → Query Unit
exec_upserts [] now db = (some tt, db)
exec_upserts (asset ∷ assets) now db =
    let rest = λ (d : Db). exec_upserts assets now d in
    (call (λ d. (some tt, record d { assets = upsert_row asset now d.assets })) >> rest) db

unfoldable pub upsert_assets : List AssetRecord → Instant → Query Unit
unfolding exec_upserts
upsert_assets assets now = transaction (exec_upserts assets (to_seconds now))

abbrev pub is_missing : AssetStatus → Bool
is_missing missing = true
is_missing active = false

abbrev pub contains : List Text → Text → Bool
contains ids id = any (λ other. text_eq other id) ids

-- The condition of the UPDATE: with no asset seen the program leaves NOT IN out.
abbrev pub turns_missing : List Text → Text → AssetRow → Bool
turns_missing [] id row = not (is_missing row.status)
turns_missing (s ∷ seen) id row = not (is_missing row.status) && not (contains (s ∷ seen) id)

abbrev pub marked : List Text → ℕ → Text → AssetRow → AssetRow
marked seen now id row =
    if turns_missing seen id row
    then record row { status = missing; missing_at = some now; updated_at = now }
    else row

abbrev pub mark_row : List Text → ℕ → Text × AssetRow → Text × AssetRow
mark_row seen now (id, row) = (id, marked seen now id row)

unfoldable pub mark_missing : List Text → Instant → Query ℕ
mark_missing seen now = counted_call (λ db. (
  count (λ e. turns_missing seen e.0 e.1) db.assets,
  record db { assets = map (mark_row seen (to_seconds now)) db.assets },
))

abbrev pub is_active : Text × AssetRow → Bool
is_active e = not (is_missing e.1.status)

unfoldable pub count_active : Query ℕ
count_active = call (λ db. (some (count is_active db.assets), db))

unfoldable pub count_missing : Query ℕ
count_missing = call (λ db. (some (count (λ e. is_missing e.1.status) db.assets), db))

-- ORDER BY asset_id, as insertion into a sorted list.
unfoldable pub insert_sorted : Text → List Text → List Text
insert_sorted id [] = id ∷ []
insert_sorted id (x ∷ xs) = if text_le id x then id ∷ x ∷ xs else x ∷ insert_sorted id xs

unfoldable pub active_ids : Map AssetRow → List Text
unfolding insert_sorted
active_ids [] = []
active_ids ((id, row) ∷ table) =
    let rest = active_ids table in if is_active (id, row) then insert_sorted id rest else rest

unfoldable pub list_active_asset_ids : Query (List Text)
unfolding active_ids
list_active_asset_ids = call (λ db. (some (active_ids db.assets), db))
