-- ===== src/Go/Map.antt =====
-- A Go map with string keys as an association list. Reads see the first entry of a key; a write
-- replaces it, and `delete` removes every entry of the key.
use audistro_provider.Prelude.{
  ◌≡◌, refl, Option, none, some, List, [], ◌∷◌, arith, Text, text_eq, text_eq_iff, if◌then◌else◌,
  Bool-cases, inl, inr,
}

abbrev pub Map {ℓ} : Type ℓ → Type ℓ
Map V = List (Text × V)

module _ {ℓ} {V : Type ℓ} where
  unfoldable pub lookup : Text → Map V → Option V
  lookup k [] = none
  lookup k ((j, v) ∷ m) = if text_eq j k then some v else lookup k m

  unfoldable pub insert : Text → V → Map V → Map V
  insert k v [] = (k, v) ∷ []
  insert k v ((j, w) ∷ m) = if text_eq j k then (k, v) ∷ m else (j, w) ∷ insert k v m

  unfoldable pub delete : Text → Map V → Map V
  delete k [] = []
  delete k ((j, w) ∷ m) = if text_eq j k then delete k m else (j, w) ∷ delete k m

  pub lookup-insert :
      (k j : Text) (v : V) (m : Map V)
      → lookup j (insert k v m) ≡ (if text_eq k j then some v else lookup j m)
  unfolding lookup insert
  lookup-insert k j v [] = refl
  lookup-insert k j v ((i, w) ∷ m) =
      ground (arith, text_eq_iff k j, text_eq_iff i k, text_eq_iff i j, lookup-insert k j v m)

  pub lookup-delete :
      (k j : Text) (m : Map V) → lookup j (delete k m) ≡ (if text_eq k j then none else lookup j m)
  unfolding lookup delete
  lookup-delete k j [] = ground arith
  lookup-delete k j ((i, w) ∷ m) =
      ground (arith, text_eq_iff k j, text_eq_iff i k, text_eq_iff i j, lookup-delete k j m)

  -- What every Go map satisfies, and its representation here has to keep.
  abbrev pub HasDistinctKeys : Map V → Type ℓ
  HasDistinctKeys [] = Unit
  HasDistinctKeys ((k, v) ∷ m) = (lookup k m ≡ none) × HasDistinctKeys m

  pub HasDistinctKeys-insert :
      (k : Text) (v : V) (m : Map V) → HasDistinctKeys m → HasDistinctKeys (insert k v m)
  unfolding insert lookup
  HasDistinctKeys-insert k v [] h = (refl, tt)
  HasDistinctKeys-insert k v ((j, w) ∷ m) (free, h) = elim (Bool-cases (text_eq j k)) [
    | inl same ↦ let eq : j ≡ k = (text_eq_iff _ _).0 same in rw same (rw eq at free, h)
    | inr other ↦ rw other (
      rw lookup-insert (ground (arith, text_eq_iff k j, text_eq_iff j k)),
      HasDistinctKeys-insert k v m h,
    )
  ]

  lookup-delete_free : (k j : Text) (m : Map V) → lookup j m ≡ none → lookup j (delete k m) ≡ none
  lookup-delete_free k j m free = ground (arith, lookup-delete k j m)

  pub HasDistinctKeys-delete :
      (k : Text) (m : Map V) → HasDistinctKeys m → HasDistinctKeys (delete k m)
  unfolding delete
  HasDistinctKeys-delete k [] h = h
  HasDistinctKeys-delete k ((j, w) ∷ m) (free, h) = elim (Bool-cases (text_eq j k)) [
    | inl same ↦ rw same (HasDistinctKeys-delete k m h)
    | inr other ↦ rw other (lookup-delete_free k j m free, HasDistinctKeys-delete k m h)
  ]
