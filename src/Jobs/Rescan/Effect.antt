-- ===== src/Jobs/Rescan/Effect.antt =====
-- What a rescan leaves in the assets table.
use audistro_provider.Prelude.{
  ℕ, ◌≡◌, refl, true, false, Option, none, some, List, [], ◌∷◌, ◌++◌, map, arith, Text, count,
  if◌then◌else◌, Bool-cases, inl, inr, ap, text_eq_refl,
}
use mathlib.Core.Option
use audistro_provider.Go.Time.{Instant}
use audistro_provider.Go.Map.{Map, lookup}
use audistro_provider.Scanner.{Asset, ScanResult}
use audistro_provider.Repository.Db.{
  AssetStatus, active, missing, AssetRow, Db, to_seconds, continue-some,
}
use audistro_provider.Repository.Assets.{
  row_of, upsert_assets, contains, is_active, mark_row, marked, mark_missing, count_active,
}
use audistro_provider.Repository.Assets.Tables.{
  HasAssets, upserted, ids_of, IsDistinct, lookup-upserted, lookup-upserted_mem,
  lookup-upserted_self, lookup-map-mark_row,
}
use audistro_provider.Repository.Assets.Calls.{
  upsert_assets-HasAssets, mark_missing-HasAssets, count_active-HasAssets,
}
use audistro_provider.Jobs.Rescan.{RescanResult, to_record, seen_ids, run_rescan_job}

-- The assets table after a rescan that succeeds.
abbrev pub rescanned : List Asset → ℕ → Map AssetRow → Map AssetRow
rescanned assets now table =
    map (mark_row (seen_ids assets) now) (upserted (map to_record assets) now table)

pub run_rescan_job-HasAssets :
    (scan : ScanResult) (now : Instant) (db : Db) (r : RescanResult)
    → (run_rescan_job (some scan) now db).0 ≡ some r
    → HasAssets db
        (rescanned scan.assets (to_seconds now) db.assets)
        (run_rescan_job (some scan) now db).1
      × (r.active_assets ≡ count is_active (rescanned scan.assets (to_seconds now) db.assets))
unfolding run_rescan_job
run_rescan_job-HasAssets scan now db r e =
    let (u, put, e₁, s₁) = continue-some (upsert_assets (map to_record scan.assets) now db) _ e in
    let upserts = (upsert_assets-HasAssets (map to_record scan.assets) now db).1 put in
    let (n, marks, e₂, s₂) = continue-some (mark_missing (seen_ids scan.assets) now _) _ e₁ in
    let left = mark_missing-HasAssets (seen_ids scan.assets) now _ n marks in
    let (k, counts, e₃, s₃) = continue-some (count_active _) _ e₂ in
    let counted = count_active-HasAssets _ k counts in ground arith

ids_of-to_record : (assets : List Asset) → ids_of (map to_record assets) ≡ seen_ids assets
ids_of-to_record [] = refl
ids_of-to_record (a ∷ assets) = ap (λ t. a.asset_id ∷ t) (ids_of-to_record assets)

abbrev pub status_at : Text → Map AssetRow → Option AssetStatus
status_at id table = Option.map (λ row. row.status) (lookup id table)

status-marked :
    (seen : List Text) (now : ℕ) (id : Text) (row : AssetRow)
    → (marked seen now id row).status ≡ (if contains seen id then row.status else missing)
status-marked [] now id row = ground arith
status-marked (s ∷ seen) now id row = ground arith

status-map-marked :
    (seen : List Text) (now : ℕ) (id : Text)
    → contains seen id ≡ false
    → (old : Option AssetRow)
    → Option.map (λ row. row.status) (Option.map (λ row. marked seen now id row) old)
      ≡ Option.map (λ row. missing) old
status-map-marked seen now id unseen none = refl
status-map-marked seen now id unseen (some row) = ground (arith, status-marked seen now id row)

pub status-rescanned :
    (assets : List Asset) (now : ℕ) (table : Map AssetRow) (id : Text)
    → status_at id (rescanned assets now table) ≡ (
        if contains (seen_ids assets) id
        then some active
        else Option.map (λ row. missing) (lookup id table))
status-rescanned assets now table id = elim (Bool-cases (contains (seen_ids assets) id)) [
  | inl seen ↦
      let (row, found, fresh, since) =
        lookup-upserted_mem (map to_record assets) now table id
          (rw (ids_of-to_record assets) seen) in
      rw (lookup-map-mark_row, found) (ground (arith, status-marked (seen_ids assets) now id row))
  | inr unseen ↦
      let same =
        lookup-upserted (map to_record assets) now table id (rw (ids_of-to_record assets) unseen) in
      rw (lookup-map-mark_row, same, unseen)
        (status-map-marked (seen_ids assets) now id unseen (lookup id table))
]

-- After a rescan that succeeds an asset is active exactly if it was scanned, and is missing exactly
-- if it was not scanned and the table knew it before; no other asset has a row. The announcements
-- are untouched.
pub rescan-status :
    (scan : ScanResult) (now : Instant) (db : Db) (r : RescanResult)
    → (run_rescan_job (some scan) now db).0 ≡ some r
    → ((id : Text)
        → status_at id (run_rescan_job (some scan) now db).1.assets ≡ (
            if contains (seen_ids scan.assets) id
            then some active
            else Option.map (λ row. missing) (lookup id db.assets)))
      × ((run_rescan_job (some scan) now db).1.announcements ≡ db.announcements)
rescan-status scan now db r e =
    let (left, counted) = run_rescan_job-HasAssets scan now db r e in
    (
      λ id. rw left.assets (status-rescanned scan.assets (to_seconds now) db.assets id),
      left.announcements,
    )

marked_seen :
    (seen : List Text) (now : ℕ) (id : Text) (row : AssetRow)
    → contains seen id ≡ true
    → marked seen now id row ≡ row
marked_seen [] now id row h = cc
marked_seen (s ∷ seen) now id row h = ground arith

contains_middle :
    (before after : List Asset) (a : Asset)
    → contains (seen_ids (before ++ a ∷ after)) a.asset_id ≡ true
contains_middle [] after a = ground (arith, text_eq_refl a.asset_id)
contains_middle (b ∷ before) after a = ground (arith, contains_middle before after a)

ids-middle :
    (before after : List Asset) (a : Asset)
    → map to_record (before ++ a ∷ after)
      ≡ map to_record before ++ to_record a ∷ map to_record after
ids-middle [] after a = refl
ids-middle (b ∷ before) after a = ap (λ t. to_record b ∷ t) (ids-middle before after a)

lookup-rescanned :
    (before after : List Asset) (a : Asset) (now : ℕ) (table : Map AssetRow)
    → IsDistinct (seen_ids (before ++ a ∷ after))
    → lookup a.asset_id (rescanned (before ++ a ∷ after) now table)
      ≡ some (row_of (to_record a) now (lookup a.asset_id table))
lookup-rescanned before after a now table d =
    let ids : IsDistinct (ids_of (map to_record before ++ to_record a ∷ map to_record after)) =
      rw (← ids-middle before after a, ids_of-to_record (before ++ a ∷ after)) d in
    let put : lookup a.asset_id (upserted (map to_record (before ++ a ∷ after)) now table)
        ≡ some (row_of (to_record a) now (lookup a.asset_id table)) =
      rw (ids-middle before after a) (
        lookup-upserted_self (map to_record before) (map to_record after) (to_record a) now table
          ids) in
    rw (lookup-map-mark_row, put)
      (ap some (marked_seen _ now a.asset_id _ (contains_middle before after a)))

-- Each scanned asset's row then holds what the scan found, with the time of the rescan; the time of
-- creation is kept where the asset was known. This is for a scan that names no asset twice.
pub rescan-row :
    (scan : ScanResult) (now : Instant) (db : Db) (r : RescanResult) (before after : List Asset)
    (a : Asset)
    → (run_rescan_job (some scan) now db).0 ≡ some r
    → scan.assets ≡ before ++ a ∷ after
    → IsDistinct (seen_ids scan.assets)
    → lookup a.asset_id (run_rescan_job (some scan) now db).1.assets
      ≡ some (row_of (to_record a) (to_seconds now) (lookup a.asset_id db.assets))
rescan-row scan now db r before after a e split d =
    let (left, counted) = run_rescan_job-HasAssets scan now db r e in
    rw (left.assets, split)
      (lookup-rescanned before after a (to_seconds now) db.assets (rw split at d))
