-- ===== src/Repository/Changes/Kept.antt =====
-- What every sequence of calls leaves true of the two tables.
use audistro_provider.Prelude.{
  ℕ, ◌≡◌, refl, ◌∙◌, ◌⊎◌, inl, inr, none, some, List, [], ◌∷◌, map, Text, text_eq, text_eq_iff,
  arith, Option-cases, Bool-cases,
}
use audistro_provider.Go.Time.{Instant}
use audistro_provider.Go.Map.{Map, lookup, insert, lookup-insert}
use audistro_provider.Repository.Db.{AnnouncementStatus, StoredAnnouncement, Stamp, AssetRow, Db}
use audistro_provider.Repository.Assets.{AssetRecord, mark_row, marked, upsert_row}
use audistro_provider.Repository.Assets.Tables.{upserted, lookup-map-mark_row}
use audistro_provider.Repository.Announcements.Expiry.{lookup-map-expire_row}
use audistro_provider.Repository.Announcements.{stored_row, expire_row, expired_row}
use audistro_provider.Repository.Changes.{
  Change, unchanged, upserts, marks, announces, expires, Changes, none_yet, then_one, Keeps,
}

-- A row of a table stays in another, with its time of creation.
module _ {Row Time : Type 0} (created : Row → Time) where
  abbrev Stays : Map Row → Map Row → Text → Type 0
  Stays table table' id =
      (lookup id table ≡ none)
      ⊎ ((row row' : Row) × (lookup id table ≡ some row)
          × (lookup id table' ≡ some row')
          × (created row' ≡ created row))

  Stays-refl : (table : Map Row) (id : Text) → Stays table table id
  Stays-refl table id = elim (Option-cases (lookup id table)) [
    | inl h ↦ inl h
    | inr (row, at) ↦ inr (row, row, at, at, refl)
  ]

  Stays-trans : (s t u : Map Row) (id : Text) → Stays s t id → Stays t u id → Stays s u id
  Stays-trans s t u id (inl h) k = inl h
  Stays-trans s t u id (inr (a, b, at, to, e)) (inl h) = absurd cc
  Stays-trans s t u id (inr (a, b, at, to, e)) (inr (b', c, at', to', e')) =
      let same : b ≡ b' = cc in inr (a, c, at, to', e' ∙ rw same at e)

  -- A row of the key that keeps the time of the one before it.
  Stays-insert :
      (k : Text) (row' : Row) (table : Map Row) (id : Text)
      → (lookup k table ≡ none)
        ⊎ ((row : Row) × (lookup k table ≡ some row) × (created row' ≡ created row))
      → Stays table (insert k row' table) id
  Stays-insert k row' table id h = elim (Bool-cases (text_eq k id)) [
    | inr other ↦ elim (Stays-refl table id) [
      | inl gone ↦ inl gone
      | inr (row, _, at, _, e) ↦ inr (row, row, at, lookup-insert _ _ _ table ∙ rw other at, refl)
    ]
    | inl same ↦
        let eq : k ≡ id = (text_eq_iff _ _).0 same in
        elim h [
          | inl gone ↦ inl (rw eq at gone)
          | inr (row, at, e) ↦
              inr (row, row', rw eq at at, lookup-insert _ _ _ table ∙ rw same refl, e)
        ]
  ]

abbrev asset_time : AssetRow → ℕ
asset_time row = row.created_at

abbrev announcement_time : StoredAnnouncement → Stamp
announcement_time row = row.created_at

Stays-upsert_row :
    (asset : AssetRecord) (now : ℕ) (table : Map AssetRow) (id : Text)
    → Stays asset_time table (upsert_row asset now table) id
unfolding upsert_row
Stays-upsert_row asset now table id =
    Stays-insert asset_time asset.asset_id _ table id
      (elim (Option-cases (lookup asset.asset_id table)) [
        | inl h ↦ inl h
        | inr (row, at) ↦ inr (row, at, rw at refl)
      ])

Stays-upserted :
    (assets : List AssetRecord) (now : ℕ) (table : Map AssetRow) (id : Text)
    → Stays asset_time table (upserted assets now table) id
unfolding upserted
Stays-upserted [] now table id = Stays-refl asset_time table id
Stays-upserted (asset ∷ assets) now table id =
    Stays-trans asset_time table (upsert_row asset now table) _ id
      (Stays-upsert_row asset now table id)
      (Stays-upserted assets now (upsert_row asset now table) id)

Stays-mark :
    (seen : List Text) (now : ℕ) (table : Map AssetRow) (id : Text)
    → Stays asset_time table (map (mark_row seen now) table) id
Stays-mark seen now table id = elim (Option-cases (lookup id table)) [
  | inl h ↦ inl h
  | inr (row, at) ↦ inr (
    row,
    marked seen now id row,
    at,
    lookup-map-mark_row seen now table id ∙ rw at refl,
    ground arith,
  )
]

Stays-announce :
    (k : Text) (last expiry : Instant) (status : AnnouncementStatus) (now : Instant)
    (table : Map StoredAnnouncement) (id : Text)
    → Stays announcement_time table
        (insert k (stored_row last expiry status now (lookup k table)) table)
        id
Stays-announce k last expiry status now table id =
    Stays-insert announcement_time k _ table id (elim (Option-cases (lookup k table)) [
      | inl h ↦ inl h
      | inr (row, at) ↦ inr (row, at, rw at refl)
    ])

Stays-expire :
    (cutoff : ℕ) (now : Instant) (table : Map StoredAnnouncement) (id : Text)
    → Stays announcement_time table (map (expire_row cutoff now) table) id
Stays-expire cutoff now table id = elim (Option-cases (lookup id table)) [
  | inl h ↦ inl h
  | inr (row, at) ↦ inr (
    row,
    expired_row cutoff now row,
    at,
    lookup-map-expire_row cutoff now table id ∙ rw at refl,
    ground arith,
  )
]

pub Change-Keeps : (db db' : Db) → Change db db' → Keeps db db'
Change-Keeps db db' (unchanged h) = record {
  assets = λ id. rw h.assets (Stays-refl asset_time db.assets id);
  announcements = λ id. rw h.announcements (Stays-refl announcement_time db.announcements id);
}
Change-Keeps db db' (upserts assets now h) = record {
  assets = λ id. rw h.assets (Stays-upserted assets now db.assets id);
  announcements = λ id. rw h.announcements (Stays-refl announcement_time db.announcements id);
}
Change-Keeps db db' (marks seen now h) = record {
  assets = λ id. rw h.assets (Stays-mark seen now db.assets id);
  announcements = λ id. rw h.announcements (Stays-refl announcement_time db.announcements id);
}
Change-Keeps db db' (announces k last expiry status now known h) = record {
  assets = λ id. rw h.assets (Stays-refl asset_time db.assets id);
  announcements =
      λ id. rw h.announcements (Stays-announce k last expiry status now db.announcements id);
}
Change-Keeps db db' (expires cutoff now h) = record {
  assets = λ id. rw h.assets (Stays-refl asset_time db.assets id);
  announcements = λ id. rw h.announcements (Stays-expire cutoff now db.announcements id);
}

-- Whatever calls are made, in whatever order, no asset and no announcement loses its row, and each
-- keeps its time of creation.
pub Changes-Keeps : (db db' : Db) → Changes db db' → Keeps db db'
Changes-Keeps db _ none_yet = record {
  assets = λ id. Stays-refl asset_time db.assets id;
  announcements = λ id. Stays-refl announcement_time db.announcements id;
}
Changes-Keeps db e (then_one {d = d} before last) =
    let earlier = Changes-Keeps db d before in
    let later = Change-Keeps d e last in
    record {
      assets = λ id.
          Stays-trans asset_time db.assets d.assets e.assets id (earlier.assets id)
            (later.assets id);
      announcements = λ id.
          Stays-trans announcement_time db.announcements d.announcements e.announcements id
            (earlier.announcements id) (later.announcements id);
    }
