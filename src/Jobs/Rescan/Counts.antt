-- ===== src/Jobs/Rescan/Counts.antt =====
-- The number of active assets that a rescan reports.
use audistro_provider.Prelude.{
  ℕ, suc, ◌≡◌, refl, Bool, true, false, Option, none, some, List, [], ◌∷◌, map, arith, Text, count,
  if◌then◌else◌, Bool-cases, inl, inr, text_eq, text_eq_iff, text_eq_refl, length, not, ◌∙◌,
  length-map,
}
use mathlib.Core.Option
use audistro_provider.Go.Time.{Instant}
use audistro_provider.Go.Map.{Map, lookup, HasDistinctKeys}
use audistro_provider.Scanner.{Asset, ScanResult}
use audistro_provider.Repository.Db.{AssetStatus, missing, AssetRow, Db, to_seconds}
use audistro_provider.Repository.Assets.Keys.{
  HasDistinctKeys-upserted, HasDistinctKeys-map-mark_row,
}
use audistro_provider.Repository.Assets.{contains, is_missing, is_active}
use audistro_provider.Repository.Assets.Tables.{IsDistinct}
use audistro_provider.Jobs.Rescan.{RescanResult, to_record, seen_ids, run_rescan_job}
use audistro_provider.Jobs.Rescan.Effect.{
  rescanned, run_rescan_job-HasAssets, status_at, status-rescanned,
}

-- The list without an id that occurs in it once.
remove : Text → List Text → List Text
remove k [] = []
remove k (x ∷ xs) = if text_eq x k then xs else x ∷ remove k xs

length-remove :
    (k : Text) (ids : List Text) → contains ids k ≡ true → length ids ≡ suc (length (remove k ids))
unfolding remove
length-remove k [] h = cc
length-remove k (x ∷ xs) h = ground (arith, length-remove k xs)

contains-remove :
    (k id : Text) (ids : List Text)
    → IsDistinct ids
    → contains (remove k ids) id ≡ (if text_eq k id then false else contains ids id)
unfolding remove
contains-remove k id [] d = ground arith
contains-remove k id (x ∷ xs) (free, d) = elim (Bool-cases (text_eq x k)) [
  | inl same ↦
      let eq : x ≡ k = (text_eq_iff _ _).0 same in
      rw same (ground (arith, text_eq_iff k id, text_eq_iff x id))
  | inr other ↦ rw other (
      ground
        (arith, contains-remove k id xs d, text_eq_iff x k, text_eq_iff k id, text_eq_iff x id))
]

contains-remove_of :
    (k x : Text) (xs : List Text)
    → IsDistinct xs
    → contains xs x ≡ false
    → contains (remove k xs) x ≡ false
contains-remove_of k x xs d h = rw (contains-remove k x xs d) (ground arith)

IsDistinct-remove : (k : Text) (ids : List Text) → IsDistinct ids → IsDistinct (remove k ids)
unfolding remove
IsDistinct-remove k [] d = d
IsDistinct-remove k (x ∷ xs) (free, d) = elim (Bool-cases (text_eq x k)) [
  | inl same ↦ rw same d
  | inr other ↦ rw other (contains-remove_of k x xs d free, IsDistinct-remove k xs d)
]

abbrev is_some_active : Option AssetStatus → Bool
is_some_active none = false
is_some_active (some s) = not (is_missing s)

-- The ids of a list are those of the active rows.
abbrev Lists : List Text → Map AssetRow → Type 0
Lists ids table = (id : Text) → contains ids id ≡ is_some_active (status_at id table)

Lists-cons :
    (ids : List Text) (k : Text) (row : AssetRow) (table : Map AssetRow)
    → lookup k table ≡ none
    → IsDistinct ids
    → Lists ids ((k, row) ∷ table)
    → Lists (remove k ids) table
unfolding lookup
Lists-cons ids k row table free d h id =
    rw (contains-remove k id ids d) (elim (Bool-cases (text_eq k id)) [
      | inl same ↦ let eq : k ≡ id = (text_eq_iff _ _).0 same in rw (same, ← eq, free) refl
      | inr other ↦ rw other (ground (arith, h id))
    ])

remove_absent : (k : Text) (ids : List Text) → contains ids k ≡ false → remove k ids ≡ ids
unfolding remove
remove_absent k [] h = refl
remove_absent k (x ∷ xs) h = ground (arith, remove_absent k xs)

count-Lists :
    (table : Map AssetRow) (ids : List Text)
    → HasDistinctKeys table
    → IsDistinct ids
    → Lists ids table
    → count is_active table ≡ length ids
unfolding lookup
count-Lists [] [] k d h = refl
count-Lists [] (id ∷ ids) k d h = ground (arith, h id, text_eq_refl id)
count-Lists ((k, row) ∷ table) ids (free, keys) d h = ground (
  arith,
  h k,
  text_eq_refl k,
  length-remove k ids,
  remove_absent k ids,
  count-Lists table (remove k ids) keys (IsDistinct-remove k ids d)
      (Lists-cons ids k row table free d h),
)

Lists-rescanned :
    (assets : List Asset) (now : ℕ) (table : Map AssetRow)
    → Lists (seen_ids assets) (rescanned assets now table)
Lists-rescanned assets now table id =
    rw (status-rescanned assets now table id) (elim (Bool-cases (contains (seen_ids assets) id)) [
      | inl seen ↦ rw seen refl
      | inr unseen ↦ rw unseen (no_active (lookup id table))
    ])
  where
    no_active : (old : Option AssetRow) → false ≡ is_some_active (Option.map (λ row. missing) old)
    no_active none = refl
    no_active (some row) = refl

-- A rescan that succeeds reports as many active assets as the scan found, where the primary key
-- holds and the scan names no asset twice; and the primary key holds after it.
pub rescan-active_assets :
    (scan : ScanResult) (now : Instant) (db : Db) (r : RescanResult)
    → (run_rescan_job (some scan) now db).0 ≡ some r
    → HasDistinctKeys db.assets
    → IsDistinct (seen_ids scan.assets)
    → (r.active_assets ≡ length scan.assets)
      × HasDistinctKeys (run_rescan_job (some scan) now db).1.assets
rescan-active_assets scan now db r e keys d =
    let (left, counted) = run_rescan_job-HasAssets scan now db r e in
    let after_keys =
      HasDistinctKeys-map-mark_row (seen_ids scan.assets) (to_seconds now) _
        (HasDistinctKeys-upserted (map to_record scan.assets) (to_seconds now) db.assets keys) in
    (
      counted
          ∙ count-Lists _ (seen_ids scan.assets) after_keys d
              (Lists-rescanned scan.assets (to_seconds now) db.assets)
          ∙ length-map scan.assets (λ a. a.asset_id),
      rw left.assets after_keys,
    )
