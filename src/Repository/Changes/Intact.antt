-- ===== src/Repository/Changes/Intact.antt =====
-- The keys of the two tables under every sequence of calls.
use audistro_provider.Prelude.{
  ℕ, ◌≡◌, refl, ◌∙◌, ◌⊎◌, inl, inr, none, some, [], ◌∷◌, map, Text, text_eq, text_eq_iff,
  Bool-cases,
}
use audistro_provider.Go.Time.{Instant}
use audistro_provider.Go.Map.{
  Map, lookup, insert, lookup-insert, HasDistinctKeys, HasDistinctKeys-insert,
}
use audistro_provider.Repository.Db.{StoredAnnouncement, AssetRow, Db}
use audistro_provider.Repository.Assets.Keys.{
  HasDistinctKeys-upserted, HasDistinctKeys-map-mark_row,
}
use audistro_provider.Repository.Announcements.{expire_row}
use audistro_provider.Repository.Announcements.Expiry.{lookup-map-expire_row}
use audistro_provider.Repository.Changes.{
  Change, unchanged, upserts, marks, announces, expires, Changes, none_yet, then_one, IsIntact,
  Keeps,
}
use audistro_provider.Repository.Changes.Kept.{Change-Keeps}

HasDistinctKeys-map-expire_row :
    (cutoff : ℕ) (now : Instant) (table : Map StoredAnnouncement)
    → HasDistinctKeys table
    → HasDistinctKeys (map (expire_row cutoff now) table)
HasDistinctKeys-map-expire_row cutoff now [] h = h
HasDistinctKeys-map-expire_row cutoff now ((k, row) ∷ table) (free, h) = (
  rw (lookup-map-expire_row cutoff now table k, free) refl,
  HasDistinctKeys-map-expire_row cutoff now table h,
)

-- Every announcement of a table names an asset of the other.
abbrev Refers : Map StoredAnnouncement → Map AssetRow → Type 0
Refers announcements assets =
    (id : Text)
    → (lookup id announcements ≡ none) ⊎ ((row : AssetRow) × (lookup id assets ≡ some row))

-- Where the assets keep their rows and no announcement is new, the references stay.
Refers-Keeps :
    (db db' : Db)
    → Keeps db db'
    → Refers db.announcements db.assets
    → ((id : Text)
        → (lookup id db'.announcements ≡ none)
          ⊎ ((row : AssetRow) × (lookup id db.assets ≡ some row)))
    → Refers db'.announcements db'.assets
Refers-Keeps db db' keeps old new id = elim (new id) [
  | inl gone ↦ inl gone
  | inr (row, at) ↦ elim (keeps.assets id) [
    | inl missing ↦ absurd cc
    | inr (_, row', _, at', _) ↦ inr (row', at')
  ]
]

Refers-insert :
    (id : Text) (row : StoredAnnouncement) (announcements : Map StoredAnnouncement)
    (assets : Map AssetRow) (asset : AssetRow)
    → lookup id assets ≡ some asset
    → Refers announcements assets
    → Refers (insert id row announcements) assets
Refers-insert id row announcements assets asset known old k = elim (Bool-cases (text_eq id k)) [
  | inl same ↦ let eq : id ≡ k = (text_eq_iff _ _).0 same in inr (asset, rw eq at known)
  | inr other ↦ elim (old k) [
    | inl gone ↦ inl (lookup-insert id k row announcements ∙ rw other gone)
    | inr held ↦ inr held
  ]
]

Refers-expire :
    (cutoff : ℕ) (now : Instant) (announcements : Map StoredAnnouncement) (assets : Map AssetRow)
    → Refers announcements assets
    → Refers (map (expire_row cutoff now) announcements) assets
Refers-expire cutoff now announcements assets old id = elim (old id) [
  | inl gone ↦ inl (lookup-map-expire_row cutoff now announcements id ∙ rw gone refl)
  | inr held ↦ inr held
]

-- Which announcements there are after a call, in terms of the assets before it.
new_references :
    (db db' : Db)
    → Change db db'
    → Refers db.announcements db.assets
    → Refers db'.announcements db.assets
new_references db db' (unchanged h) old = λ id. rw h.announcements (old id)
new_references db db' (upserts assets now h) old = λ id. rw h.announcements (old id)
new_references db db' (marks seen now h) old = λ id. rw h.announcements (old id)
new_references db db' (announces k last expiry status now (asset, known) h) old =
    λ id. rw h.announcements (Refers-insert k _ db.announcements db.assets asset known old id)
new_references db db' (expires cutoff now h) old =
    λ id. rw h.announcements (Refers-expire cutoff now db.announcements db.assets old id)

Change-keys :
    (db db' : Db)
    → Change db db'
    → IsIntact db
    → HasDistinctKeys db'.assets
      × HasDistinctKeys db'.announcements
      × (db'.foreign_keys ≡ db.foreign_keys)
Change-keys db db' (unchanged h) i =
    (rw h.assets i.asset_keys, rw h.announcements i.announcement_keys, h.foreign_keys)
Change-keys db db' (upserts assets now h) i = (
  rw h.assets (HasDistinctKeys-upserted assets now db.assets i.asset_keys),
  rw h.announcements i.announcement_keys,
  h.foreign_keys,
)
Change-keys db db' (marks seen now h) i = (
  rw h.assets (HasDistinctKeys-map-mark_row seen now db.assets i.asset_keys),
  rw h.announcements i.announcement_keys,
  h.foreign_keys,
)
Change-keys db db' (announces k last expiry status now known h) i = (
  rw h.assets i.asset_keys,
  rw h.announcements (HasDistinctKeys-insert k _ db.announcements i.announcement_keys),
  h.foreign_keys,
)
Change-keys db db' (expires cutoff now h) i = (
  rw h.assets i.asset_keys,
  rw h.announcements
      (HasDistinctKeys-map-expire_row cutoff now db.announcements i.announcement_keys),
  h.foreign_keys,
)

Change-IsIntact : (db db' : Db) → Change db db' → IsIntact db → IsIntact db'
Change-IsIntact db db' c i =
    let (asset_keys, announcement_keys, same) = Change-keys db db' c i in
    record {
      asset_keys = asset_keys;
      announcement_keys = announcement_keys;
      references =
          Refers-Keeps db db' (Change-Keeps db db' c) i.references
            (new_references db db' c i.references);
    }

-- Whatever calls are made, in whatever order, both primary keys hold, and so does the reference from
-- announcements to assets, where an announcement is stored only for an asset that has a row.
pub Changes-IsIntact : (db db' : Db) → Changes db db' → IsIntact db → IsIntact db'
Changes-IsIntact db _ none_yet i = i
Changes-IsIntact db e (then_one {d = d} before last) i =
    Change-IsIntact d e last (Changes-IsIntact db d before i)
