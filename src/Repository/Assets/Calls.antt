-- ===== src/Repository/Assets/Calls.antt =====
-- What a successful call of assets_repo.go has done, and what a failed one leaves.
use audistro_provider.Prelude.{
  ◌⊎◌, inl, inr, Option-cases, ℕ, ◌≡◌, none, some, List, map, arith, Text, count,
}
use audistro_provider.Go.Time.{Instant}
use audistro_provider.Repository.Db.{Db, to_seconds, after_call}
use audistro_provider.Repository.Assets.{
  AssetRecord, upsert_assets, is_active, mark_row, mark_missing, count_active,
}
use audistro_provider.Repository.Assets.Tables.{
  HasAssets, upserted, exec_upserts-HasAssets, exec_upserts-foreign_keys,
}

pub upsert_assets-HasAssets :
    (assets : List AssetRecord) (now : Instant) (db : Db)
    → ((upsert_assets assets now db).0 ≡ none
        → HasAssets db db.assets (upsert_assets assets now db).1)
      × ((upsert_assets assets now db).0 ≡ some tt
          → HasAssets db
              (upserted assets (to_seconds now) db.assets)
              (upsert_assets assets now db).1)
unfolding upsert_assets
upsert_assets-HasAssets assets now db = ground (
  arith,
  exec_upserts-HasAssets assets (to_seconds now) (after_call db),
  exec_upserts-foreign_keys assets (to_seconds now) (after_call db),
)

-- `UpsertAssets` is atomic: it returns an error and leaves both tables as they were, or it succeeds
-- and every record has been upserted in order; the announcements are never touched.
pub upsert_assets_atomic :
    (assets : List AssetRecord) (now : Instant) (db : Db)
    → (((upsert_assets assets now db).0 ≡ none)
        × HasAssets db db.assets (upsert_assets assets now db).1)
      ⊎ (((upsert_assets assets now db).0 ≡ some tt)
          × HasAssets db
              (upserted assets (to_seconds now) db.assets)
              (upsert_assets assets now db).1)
upsert_assets_atomic assets now db =
    let (failed, succeeded) = upsert_assets-HasAssets assets now db in
    elim (Option-cases (upsert_assets assets now db).0) [
      | inl error ↦ inl (error, failed error)
      | inr (done, e) ↦ inr (e, succeeded e)
    ]

pub mark_missing-HasAssets :
    (seen : List Text) (now : Instant) (db : Db) (n : ℕ)
    → (mark_missing seen now db).0 ≡ some n
    → HasAssets db (map (mark_row seen (to_seconds now)) db.assets) (mark_missing seen now db).1
unfolding mark_missing
mark_missing-HasAssets seen now db n e = ground arith

pub count_active-HasAssets :
    (db : Db) (n : ℕ)
    → (count_active db).0 ≡ some n
    → (n ≡ count is_active db.assets) × HasAssets db db.assets (count_active db).1
unfolding count_active
count_active-HasAssets db n e = ground arith
