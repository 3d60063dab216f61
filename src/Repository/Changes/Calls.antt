-- ===== src/Repository/Changes/Calls.antt =====
-- Each call of internal/repository, and each chain of calls, as a sequence of changes.
use audistro_provider.Prelude.{
  ℕ, ◌≡◌, refl, ◌⊎◌, inl, inr, Bool, true, false, not, ◌&&◌, Option, none, some, List, map, Text,
  Bool-cases, if◌then◌else◌, arith,
}
use audistro_provider.Go.Int64.{ℤ}
use audistro_provider.Go.Time.{Instant, of_unix}
use audistro_provider.Go.Map.{lookup, insert}
use audistro_provider.Repository.Db.{
  AnnouncementStatus, AssetRow, Db, Query, Fault, healthy, refused, uncounted, met, run_unless,
  count_unless, after_call, to_seconds, continue,
}
use audistro_provider.Repository.Assets.{
  AssetRecord, upsert_assets, mark_missing, count_active, count_missing, list_active_asset_ids,
  mark_row,
}
use audistro_provider.Repository.Assets.Calls.{upsert_assets_atomic}
use audistro_provider.Repository.Announcements.{
  upsert_announcement_status, get_announcement, mark_expired_before, expire_row, stored_row,
  is_known,
}
use audistro_provider.Repository.Changes.{
  IsGuarded, Change, unchanged, upserts, marks, announces, expires, Changes, none_yet, then_one,
}

pub upsert_assets-Change :
    (assets : List AssetRecord) (now : Instant) (db : Db)
    → Change db (upsert_assets assets now db).1
upsert_assets-Change assets now db = elim (upsert_assets_atomic assets now db) [
  | inl (failed, h) ↦ unchanged h
  | inr (done, h) ↦ upserts assets (to_seconds now) h
]

-- A call that only reads.
read-Change :
    {A : Type 0} (f : Db → Option A) (db : Db) (met_there : Fault)
    → Change db (run_unless met_there (λ d. (f d, d)) db).1
read-Change f db healthy =
    unchanged (record { assets = refl; announcements = refl; foreign_keys = refl })
read-Change f db refused =
    unchanged (record { assets = refl; announcements = refl; foreign_keys = refl })
read-Change f db uncounted =
    unchanged (record { assets = refl; announcements = refl; foreign_keys = refl })

pub count_active-Change : (db : Db) → Change db (count_active db).1
unfolding count_active
count_active-Change db = read-Change _ db (met db)

pub count_missing-Change : (db : Db) → Change db (count_missing db).1
unfolding count_missing
count_missing-Change db = read-Change _ db (met db)

pub list_active-Change : (db : Db) → Change db (list_active_asset_ids db).1
unfolding list_active_asset_ids
list_active-Change db = read-Change _ db (met db)

pub get_announcement-Change : (id : Text) (db : Db) → Change db (get_announcement id db).1
unfolding get_announcement
get_announcement-Change id db = read-Change _ db (met db)

mark-Change_of :
    (seen : List Text) (now : ℕ) (f : Db → ℕ) (db : Db) (met_there : Fault)
    → Change db
        (count_unless met_there
          (λ d. (f d, record d { assets = map (mark_row seen now) d.assets }))
          db).1
mark-Change_of seen now f db healthy =
    marks seen now (record { assets = refl; announcements = refl; foreign_keys = refl })
mark-Change_of seen now f db refused =
    unchanged (record { assets = refl; announcements = refl; foreign_keys = refl })
mark-Change_of seen now f db uncounted =
    marks seen now (record { assets = refl; announcements = refl; foreign_keys = refl })

pub mark_missing-Change :
    (seen : List Text) (now : Instant) (db : Db) → Change db (mark_missing seen now db).1
unfolding mark_missing
mark_missing-Change seen now db = mark-Change_of seen (to_seconds now) _ db (met db)

expire-Change_of :
    (cutoff : ℕ) (now : Instant) (f : Db → ℕ) (db : Db) (met_there : Fault)
    → Change db
        (count_unless met_there
          (λ d. (f d, record d { announcements = map (expire_row cutoff now) d.announcements }))
          db).1
expire-Change_of cutoff now f db healthy =
    expires cutoff now (record { assets = refl; announcements = refl; foreign_keys = refl })
expire-Change_of cutoff now f db refused =
    unchanged (record { assets = refl; announcements = refl; foreign_keys = refl })
expire-Change_of cutoff now f db uncounted =
    expires cutoff now (record { assets = refl; announcements = refl; foreign_keys = refl })

pub mark_expired-Change :
    (cutoff : ℤ) (now : Instant) (db : Db) → Change db (mark_expired_before cutoff now db).1
unfolding mark_expired_before
mark_expired-Change cutoff now db = expire-Change_of (to_seconds (of_unix cutoff)) now _ db (met db)

known_of :
    (fk : Bool) (o : Option AssetRow)
    → (fk && not (is_known o)) ≡ false
    → (fk ≡ true) ⊎ ((row : AssetRow) × (o ≡ some row))
    → (row : AssetRow) × (o ≡ some row)
known_of fk o e (inr known) = known
known_of fk none e (inl on) = absurd (ground arith)
known_of fk (some row) e (inl on) = (row, refl)

module _ (id : Text) (last expiry : Instant) (status : AnnouncementStatus) (now : Instant) where
  abbrev put : Query Unit
  put db = if db.foreign_keys && not (is_known (lookup id db.assets)) then (none, db) else (
    some tt,
    record db {
      announcements =
          insert id (stored_row last expiry status now (lookup id db.announcements))
            db.announcements;
    },
  )

  put-Change : (db : Db) → IsGuarded id db → Change db (put (after_call db)).1
  put-Change db guarded =
      elim (Bool-cases (db.foreign_keys && not (is_known (lookup id db.assets)))) [
        | inl off ↦
            rw off (unchanged (record { assets = refl; announcements = refl; foreign_keys = refl }))
        | inr on ↦ rw on (
            announces id last expiry status now
              (known_of db.foreign_keys (lookup id db.assets) on guarded)
              (record { assets = refl; announcements = refl; foreign_keys = refl }))
      ]

  put-Change_of :
      (db : Db) (met_there : Fault) → IsGuarded id db → Change db (run_unless met_there put db).1
  put-Change_of db healthy guarded = put-Change db guarded
  put-Change_of db refused guarded =
      unchanged (record { assets = refl; announcements = refl; foreign_keys = refl })
  put-Change_of db uncounted guarded = put-Change db guarded

  pub upsert_announcement-Change :
      (db : Db)
      → IsGuarded id db
      → Change db (upsert_announcement_status id last expiry status now db).1
  unfolding upsert_announcement_status
  upsert_announcement-Change db guarded = put-Change_of db (met db) guarded

pub Change-Changes : (db db' : Db) → Change db db' → Changes db db'
Change-Changes db db' c = then_one none_yet c

pub Changes-append : (a b c : Db) → Changes a b → Changes b c → Changes a c
Changes-append a b _ h none_yet = h
Changes-append a b c h (then_one {d = d} k last) = then_one (Changes-append a b d h k) last

-- A chain makes the changes of its first part, and then those of the rest.
pub continue-Changes :
    {A B : Type 0} (db : Db) (r : Option A × Db) (f : A → Query B)
    → Changes db r.1
    → ((a : A) (d : Db) → Changes d (f a d).1)
    → Changes db (continue r f).1
continue-Changes db (none, d) f h k = h
continue-Changes db (some a, d) f h k = Changes-append db d _ h (k a d)
