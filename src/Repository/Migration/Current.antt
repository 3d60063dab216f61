-- ===== src/Repository/Migration/Current.antt =====
-- What a migration leaves, db.go.
use audistro_provider.Prelude.{◌≡◌, ◌⊎◌, Bool, true, false, none, some, List, [], ◌∷◌, Text, All}
use audistro_provider.Go.Int64.{pos}
use audistro_provider.Repository.Migration.{Schema, Conn, has_column, ensured_columns}

-- A run that fails, or leaves a schema with the property.
abbrev Leaves : (Schema → Type 0) → Bool × Conn → Type 0
Leaves P r = (r.0 ≡ false) ⊎ P r.1.schema

-- No column of the one is missing in the other, and all else is the same.
pub record Extends (s t : Schema) : Type 0 where
  pub version : t.version ≡ s.version
  pub assets : t.has_assets ≡ s.has_assets
  pub index : t.has_index ≡ s.has_index
  pub column : (k : Text) → has_column k s ≡ true → has_column k t ≡ true

abbrev pub HasAll : List Text → Schema → Type 0
HasAll ks s = All (λ k. has_column k s ≡ true) ks

-- The schema that the statements make of another.
abbrev apply_all : List (Schema → Schema) → Schema → Schema
apply_all [] s = s
apply_all (stmt ∷ rest) s = apply_all rest (stmt s)

-- The schema after a migration of another: at version 1, as the other was if it had a version, with
-- its tables, its index and every column that the program reads, and the columns that were there.
pub record IsMigrated (s t : Schema) : Type 0 where
  pub before : (s.version ≡ none) ⊎ (s.version ≡ some (pos 1))
  pub version : t.version ≡ some (pos 1)
  pub assets : t.has_assets ≡ true
  pub index : t.has_index ≡ true
  pub ensured : HasAll ensured_columns t
  pub kept : (k : Text) → has_column k s ≡ true → has_column k t ≡ true
