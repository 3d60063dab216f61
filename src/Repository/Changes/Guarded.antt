-- ===== src/Repository/Changes/Guarded.antt =====
-- For which assets an announcement may be stored, before and after calls.
use audistro_provider.Prelude.{
  ◌≡◌, refl, ◌∙◌, inl, inr, true, some, List, [], ◌∷◌, Text, arith, text_eq, Bool-cases,
}
use audistro_provider.Go.Map.{Map, lookup}
use audistro_provider.Repository.Db.{
  AssetRow, Db, Fault, healthy, refused, uncounted, met, run_unless,
}
use audistro_provider.Repository.Assets.{contains, active_ids, list_active_asset_ids}
use audistro_provider.Repository.Assets.Active.{contains-insert_sorted}
use audistro_provider.Repository.Changes.{
  Change, unchanged, upserts, marks, announces, expires, Changes, none_yet, then_one, IsKnown,
  IsGuarded,
}
use audistro_provider.Repository.Changes.Kept.{Changes-Keeps}

Change-foreign_keys : (db db' : Db) → Change db db' → db'.foreign_keys ≡ db.foreign_keys
Change-foreign_keys db db' (unchanged h) = h.foreign_keys
Change-foreign_keys db db' (upserts assets now h) = h.foreign_keys
Change-foreign_keys db db' (marks seen now h) = h.foreign_keys
Change-foreign_keys db db' (announces k last expiry status now known h) = h.foreign_keys
Change-foreign_keys db db' (expires cutoff now h) = h.foreign_keys

Changes-foreign_keys : (db db' : Db) → Changes db db' → db'.foreign_keys ≡ db.foreign_keys
Changes-foreign_keys db _ none_yet = refl
Changes-foreign_keys db e (then_one {d = d} before last) =
    Change-foreign_keys d e last ∙ Changes-foreign_keys db d before

Changes-IsKnown : (id : Text) (db db' : Db) → Changes db db' → IsKnown id db → IsKnown id db'
Changes-IsKnown id db db' c (row, at) = elim ((Changes-Keeps db db' c).assets id) [
  | inl gone ↦ absurd cc
  | inr (_, row', _, at', _) ↦ (row', at')
]

-- An asset that an announcement may be stored for stays one.
pub Changes-IsGuarded :
    (id : Text) (db db' : Db) → Changes db db' → IsGuarded id db → IsGuarded id db'
Changes-IsGuarded id db db' c (inl on) = inl (Changes-foreign_keys db db' c ∙ on)
Changes-IsGuarded id db db' c (inr known) = inr (Changes-IsKnown id db db' c known)

-- Every asset of a list is one that an announcement may be stored for.
abbrev pub AllGuarded : List Text → Db → Type 0
AllGuarded ids db = (id : Text) → contains ids id ≡ true → IsGuarded id db

lookup-active_ids :
    (table : Map AssetRow) (id : Text)
    → contains (active_ids table) id ≡ true
    → (row : AssetRow) × (lookup id table ≡ some row)
unfolding active_ids lookup
lookup-active_ids [] id e = cc
lookup-active_ids ((k, row) ∷ table) id e = elim (Bool-cases (text_eq k id)) [
  | inl same ↦ (row, rw same refl)
  | inr other ↦
      let rest : contains (active_ids table) id ≡ true =
        ground (arith, contains-insert_sorted id k (active_ids table)) in
      rw other (lookup-active_ids table id rest)
]

list_active-IsKnown :
    (db : Db) (met_there : Fault) (ids : List Text)
    → (run_unless met_there (λ d. (some (active_ids d.assets), d)) db).0 ≡ some ids
    → (id : Text) → contains ids id ≡ true
    → IsKnown id (run_unless met_there (λ d. (some (active_ids d.assets), d)) db).1
list_active-IsKnown db healthy ids e id among =
    let same : active_ids db.assets ≡ ids = cc in lookup-active_ids db.assets id (rw same among)
list_active-IsKnown db refused ids e id among = cc
list_active-IsKnown db uncounted ids e id among =
    let same : active_ids db.assets ≡ ids = cc in lookup-active_ids db.assets id (rw same among)

pub list_active-AllGuarded :
    (db : Db) (ids : List Text)
    → (list_active_asset_ids db).0 ≡ some ids
    → AllGuarded ids (list_active_asset_ids db).1
unfolding list_active_asset_ids
list_active-AllGuarded db ids e = λ id among. inr (list_active-IsKnown db (met db) ids e id among)
