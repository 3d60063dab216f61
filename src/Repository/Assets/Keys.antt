-- ===== src/Repository/Assets/Keys.antt =====
-- The calls of assets_repo.go keep the primary key.
use audistro_provider.Prelude.{ℕ, refl, [], ◌∷◌, List, map, Text}
use audistro_provider.Go.Map.{Map, HasDistinctKeys, HasDistinctKeys-insert}
use audistro_provider.Repository.Db.{AssetRow}
use audistro_provider.Repository.Assets.{AssetRecord, upsert_row, mark_row}
use audistro_provider.Repository.Assets.Tables.{upserted, lookup-map-mark_row}

pub HasDistinctKeys-upserted :
    (assets : List AssetRecord) (now : ℕ) (table : Map AssetRow)
    → HasDistinctKeys table
    → HasDistinctKeys (upserted assets now table)
unfolding upserted upsert_row
HasDistinctKeys-upserted [] now table h = h
HasDistinctKeys-upserted (a ∷ assets) now table h =
    HasDistinctKeys-upserted assets now _ (HasDistinctKeys-insert a.asset_id _ table h)

pub HasDistinctKeys-map-mark_row :
    (seen : List Text) (now : ℕ) (table : Map AssetRow)
    → HasDistinctKeys table
    → HasDistinctKeys (map (mark_row seen now) table)
HasDistinctKeys-map-mark_row seen now [] h = h
HasDistinctKeys-map-mark_row seen now ((k, row) ∷ table) (free, h) = (
  rw (lookup-map-mark_row seen now table k, free) refl,
  HasDistinctKeys-map-mark_row seen now table h,
)
