-- ===== src/Repository/Assets/Active.antt =====
-- The list of active asset ids, ListActiveAssetIDs of assets_repo.go.
use audistro_provider.Prelude.{
  ◌≡◌, refl, Bool, false, not, ◌||◌, Option, none, some, List, [], ◌∷◌, Text, arith, text_eq,
  text_eq_iff, text_le, Bool-cases, inl, inr,
}
use audistro_provider.Go.Map.{Map, lookup, HasDistinctKeys}
use audistro_provider.Repository.Db.{AssetRow}
use audistro_provider.Repository.Assets.{is_missing, is_active, contains, insert_sorted, active_ids}
use audistro_provider.Repository.Assets.Tables.{IsDistinct}

pub contains-insert_sorted :
    (id k : Text) (xs : List Text)
    → contains (insert_sorted k xs) id ≡ (text_eq k id || contains xs id)
unfolding insert_sorted
contains-insert_sorted id k [] = refl
contains-insert_sorted id k (x ∷ xs) = ground (arith, contains-insert_sorted id k xs)

absent_after_insert :
    (k x : Text) (xs : List Text)
    → contains (x ∷ xs) k ≡ false
    → contains xs x ≡ false
    → contains (insert_sorted k xs) x ≡ false
absent_after_insert k x xs h free =
    ground (arith, contains-insert_sorted x k xs, text_eq_iff k x, text_eq_iff x k)

IsDistinct-insert_sorted :
    (k : Text) (xs : List Text)
    → contains xs k ≡ false
    → IsDistinct xs
    → IsDistinct (insert_sorted k xs)
unfolding insert_sorted
IsDistinct-insert_sorted k [] h d = (refl, tt)
IsDistinct-insert_sorted k (x ∷ xs) h (free, d) = elim (Bool-cases (text_le k x)) [
  | inl low ↦ rw low (h, (free, d))
  | inr high ↦
      rw high (absent_after_insert k x xs h free, IsDistinct-insert_sorted k xs (ground arith) d)
]

abbrev pub is_some_active : Option AssetRow → Bool
is_some_active none = false
is_some_active (some row) = not (is_missing row.status)

-- Exactly the ids of the active rows are listed.
pub contains-active_ids :
    (table : Map AssetRow) (id : Text)
    → HasDistinctKeys table
    → contains (active_ids table) id ≡ is_some_active (lookup id table)
unfolding active_ids lookup
contains-active_ids [] id h = refl
contains-active_ids ((k, row) ∷ table) id (free, h) =
    let tail = contains-active_ids table id h in
    let added = contains-insert_sorted id k (active_ids table) in
    elim (Bool-cases (text_eq k id)) [
      | inl same ↦
          let eq : k ≡ id = (text_eq_iff _ _).0 same in
          let gone : lookup id table ≡ none = rw (← eq) free in ground arith
      | inr other ↦ ground arith
    ]

absent_of_free :
    (table : Map AssetRow) (k : Text)
    → HasDistinctKeys table
    → lookup k table ≡ none
    → contains (active_ids table) k ≡ false
absent_of_free table k h free = rw (contains-active_ids table k h, free) refl

-- No id is listed twice.
pub IsDistinct-active_ids :
    (table : Map AssetRow) → HasDistinctKeys table → IsDistinct (active_ids table)
unfolding active_ids
IsDistinct-active_ids [] h = tt
IsDistinct-active_ids ((k, row) ∷ table) (free, h) = elim (Bool-cases (is_active (k, row))) [
  | inl live ↦
      rw live (
        IsDistinct-insert_sorted k _ (absent_of_free table k h free)
          (IsDistinct-active_ids table h))
  | inr dead ↦ rw dead (IsDistinct-active_ids table h)
]
