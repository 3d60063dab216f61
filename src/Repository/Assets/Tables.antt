-- ===== src/Repository/Assets/Tables.antt =====
-- What the calls of assets_repo.go leave in the tables.
use audistro_provider.Prelude.{
  ℕ, ◌≡◌, refl, true, false, none, some, List, [], ◌∷◌, ◌++◌, map, arith, Text, text_eq,
  text_eq_iff, text_eq_refl, Bool-cases, inl, inr,
}
use mathlib.Core.Option
use audistro_provider.Go.Map.{Map, lookup, lookup-insert}
use audistro_provider.Repository.Db.{active, AssetRow, Db, after_call}
use audistro_provider.Repository.Assets.{
  AssetRecord, row_of, upsert_row, exec_upserts, contains, marked, mark_row,
}

-- The table after all the upserts of a list.
unfoldable pub upserted : List AssetRecord → ℕ → Map AssetRow → Map AssetRow
upserted [] now table = table
upserted (asset ∷ assets) now table = upserted assets now (upsert_row asset now table)

abbrev pub ids_of : List AssetRecord → List Text
ids_of = map (λ a. a.asset_id)

-- A database that differs from another in the assets and the coming faults only.
pub record HasAssets (before : Db) (table : Map AssetRow) (db : Db) : Type 0 where
  pub assets : db.assets ≡ table
  pub announcements : db.announcements ≡ before.announcements
  pub foreign_keys : db.foreign_keys ≡ before.foreign_keys

pub exec_upserts-HasAssets :
    (assets : List AssetRecord) (now : ℕ) (db : Db)
    → (exec_upserts assets now db).0 ≡ some tt
    → HasAssets db (upserted assets now db.assets) (exec_upserts assets now db).1
unfolding exec_upserts upserted
exec_upserts-HasAssets [] now db e = ground arith
exec_upserts-HasAssets (asset ∷ assets) now db e = ground (
  arith,
  exec_upserts-HasAssets assets now
      (record (after_call db) { assets = upsert_row asset now db.assets }),
)

pub exec_upserts-foreign_keys :
    (assets : List AssetRecord) (now : ℕ) (db : Db)
    → (exec_upserts assets now db).1.foreign_keys ≡ db.foreign_keys
unfolding exec_upserts
exec_upserts-foreign_keys [] now db = refl
exec_upserts-foreign_keys (asset ∷ assets) now db = ground (
  arith,
  exec_upserts-foreign_keys assets now
      (record (after_call db) { assets = upsert_row asset now db.assets }),
)

pub lookup-upserted :
    (assets : List AssetRecord) (now : ℕ) (table : Map AssetRow) (id : Text)
    → contains (ids_of assets) id ≡ false
    → lookup id (upserted assets now table) ≡ lookup id table
unfolding upserted upsert_row
lookup-upserted [] now table id h = refl
lookup-upserted (asset ∷ assets) now table id h = ground (
  arith,
  lookup-upserted assets now (upsert_row asset now table) id,
  lookup-insert asset.asset_id id (row_of asset now (lookup asset.asset_id table)) table,
)

pub lookup-map-mark_row :
    (seen : List Text) (now : ℕ) (table : Map AssetRow) (id : Text)
    → lookup id (map (mark_row seen now) table)
      ≡ Option.map (λ row. marked seen now id row) (lookup id table)
unfolding lookup
lookup-map-mark_row seen now [] id = refl
lookup-map-mark_row seen now ((k, row) ∷ table) id = elim (Bool-cases (text_eq k id)) [
  | inl same ↦ let eq : k ≡ id = (text_eq_iff _ _).0 same in rw same (rw eq refl)
  | inr other ↦ rw other (lookup-map-mark_row seen now table id)
]

-- An upserted asset is active, with no time of being missing.
pub lookup-upserted_mem :
    (assets : List AssetRecord) (now : ℕ) (table : Map AssetRow) (id : Text)
    → contains (ids_of assets) id ≡ true
    → (row : AssetRow) × (lookup id (upserted assets now table) ≡ some row)
      × (row.status ≡ active)
      × (row.missing_at ≡ none)
unfolding upserted upsert_row
lookup-upserted_mem [] now table id h = cc
lookup-upserted_mem (asset ∷ assets) now table id h =
    elim (Bool-cases (contains (ids_of assets) id)) [
      | inl again ↦ lookup-upserted_mem assets now (upsert_row asset now table) id again
      | inr last ↦ (
        row_of asset now (lookup asset.asset_id table),
        rw (lookup-upserted assets now (upsert_row asset now table) id last, lookup-insert)
            (ground arith),
        refl,
        refl,
      )
    ]

-- Where the ids of a list are distinct, the last word on an asset is its record.
abbrev pub IsDistinct : List Text → Type 0
IsDistinct [] = Unit
IsDistinct (id ∷ ids) = (contains ids id ≡ false) × IsDistinct ids

ne_of_contains :
    (before after : List AssetRecord) (asset : AssetRecord) (id : Text)
    → contains (ids_of (before ++ asset ∷ after)) id ≡ false
    → text_eq asset.asset_id id ≡ false
ne_of_contains [] after asset id h = ground arith
ne_of_contains (b ∷ before) after asset id h = ground (arith, ne_of_contains before after asset id)

lookup-upsert_row_self :
    (asset : AssetRecord) (now : ℕ) (table : Map AssetRow)
    → lookup asset.asset_id (upsert_row asset now table)
      ≡ some (row_of asset now (lookup asset.asset_id table))
unfolding upsert_row
lookup-upsert_row_self asset now table = rw (lookup-insert, text_eq_refl asset.asset_id) refl

lookup-upsert_row_ne :
    (b : AssetRecord) (now : ℕ) (table : Map AssetRow) (id : Text)
    → text_eq id b.asset_id ≡ false
    → lookup id (upsert_row b now table) ≡ lookup id table
unfolding upsert_row
lookup-upsert_row_ne b now table id h =
    rw lookup-insert (ground (arith, text_eq_iff id b.asset_id, text_eq_iff b.asset_id id))

pub lookup-upserted_self :
    (before after : List AssetRecord) (asset : AssetRecord) (now : ℕ) (table : Map AssetRow)
    → IsDistinct (ids_of (before ++ asset ∷ after))
    → lookup asset.asset_id (upserted (before ++ asset ∷ after) now table)
      ≡ some (row_of asset now (lookup asset.asset_id table))
unfolding upserted
lookup-upserted_self [] after asset now table (free, d) =
    rw
      (
        lookup-upserted after now (upsert_row asset now table) asset.asset_id free,
        lookup-upsert_row_self asset now table,
      )
      refl
lookup-upserted_self (b ∷ before) after asset now table (free, d) =
    rw
      (
        lookup-upserted_self before after asset now (upsert_row b now table) d,
        lookup-upsert_row_ne b now table asset.asset_id
            (ne_of_contains before after asset b.asset_id free),
      )
      refl
