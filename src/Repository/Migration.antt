-- ===== src/Repository/Migration.antt =====
-- Migrate of internal/db/db.go: the schema that the statements make. Whether a call of the driver works
-- is an argument; a statement that fails changes nothing.
pub mod Current
pub mod Again
use audistro_provider.Prelude.{
  ℕ, Bool, true, false, not, Option, none, some, List, [], ◌∷◌, ◌++◌, Text, codes, any, text_eq,
  ◌==◌, if◌then◌else◌,
}
use audistro_provider.Go.Int64.{ℤ, pos, negsuc}

-- The version that schema_version holds, if it has its row; whether there is a table of assets; the
-- columns of announcements, if there is that table; and whether it has its index.
pub record Schema : Type 0 where
  pub version : Option ℤ
  pub has_assets : Bool
  pub announcements : Option (List Text)
  pub has_index : Bool

-- `answers` lists whether the coming calls work; past its end they do.
pub record Conn : Type 0 where
  pub schema : Schema
  pub answers : List Bool

-- A function of a connection: whether it returns no error, and the connection afterwards.
abbrev pub Step : Type 0
Step = Conn → Bool × Conn

abbrev pub then_do : Bool × Conn → Step → Bool × Conn
then_do (false, c) next = (false, c)
then_do (true, c) next = next c

abbrev pub answered : (Schema → Schema) → Schema → List Bool → Bool × Conn
answered change s [] = (true, record { schema = change s; answers = [] })
answered change s (true ∷ rest) = (true, record { schema = change s; answers = rest })
answered change s (false ∷ rest) = (false, record { schema = s; answers = rest })

abbrev pub exec : (Schema → Schema) → Step
exec change c = answered change c.schema c.answers

abbrev pub unchanged : Schema → Schema
unchanged s = s

unfoldable pub current_schema_version : ℤ
current_schema_version = pos 1

abbrev pub or_else : {A : Type 0} → A → Option A → A
or_else a none = a
or_else a (some b) = b

unfoldable pub announcement_columns : List Text
announcement_columns =
    codes "asset_id"
    ∷ codes "last_announced_at"
    ∷ codes "expires_at"
    ∷ codes "status"
    ∷ codes "created_at"
    ∷ codes "updated_at"
    ∷ []

-- The statements, the first of which makes a table that is taken as one with its row.
unfoldable pub stmts : List (Schema → Schema)
stmts =
    unchanged
    ∷ (λ s. record s { version = some (or_else (pos 1) s.version) })
    ∷ (λ s. record s { has_assets = true })
    ∷ (λ s. record s { announcements = some (or_else announcement_columns s.announcements) })
    ∷ (λ s. record s { has_index = true })
    ∷ []

unfoldable pub exec_all : List (Schema → Schema) → Step
exec_all [] c = (true, c)
exec_all (stmt ∷ rest) c = then_do (exec stmt c) (exec_all rest)

abbrev pub columns : Schema → List Text
columns s = or_else [] s.announcements

abbrev pub has_column : Text → Schema → Bool
has_column column s = any (λ name. text_eq name column) (columns s)

abbrev pub add_column : Text → Schema → Schema
add_column column s = record s { announcements = some (columns s ++ column ∷ []) }

unfoldable pub ensure_announcement_column : Text → Step
ensure_announcement_column column c =
    then_do (exec unchanged c)
      (λ c'. if has_column column c'.schema then (true, c') else exec (add_column column) c')

unfoldable pub ensure_all : List Text → Step
ensure_all [] c = (true, c)
ensure_all (column ∷ rest) c = then_do (ensure_announcement_column column c) (ensure_all rest)

abbrev pub eqb_ℤ : ℤ → ℤ → Bool
eqb_ℤ (pos m) (pos n) = m == n
eqb_ℤ (negsuc m) (negsuc n) = m == n
eqb_ℤ (pos m) (negsuc n) = false
eqb_ℤ (negsuc m) (pos n) = false

abbrev pub is_current_version : Option ℤ → Bool
is_current_version none = false
is_current_version (some v) = eqb_ℤ v current_schema_version

abbrev pub check_version : Step
check_version c = (is_current_version c.schema.version, c)

unfoldable pub ensured_columns : List Text
ensured_columns =
    codes "last_announced_at"
    ∷ codes "expires_at"
    ∷ codes "status"
    ∷ codes "created_at"
    ∷ codes "updated_at"
    ∷ []

abbrev pub in_transaction : Step
in_transaction c = then_do (exec_all stmts c) (λ c1. then_do (exec unchanged c1) (λ c2.
    then_do (check_version c2) (λ c3. then_do (ensure_all ensured_columns c3) (exec unchanged))))

abbrev pub restored : Schema → Bool × Conn → Bool × Conn
restored s (true, c) = (true, c)
restored s (false, c) = (false, record c { schema = s })

-- `Migrate`; the deferred Rollback restores the schema unless the commit has worked.
unfoldable pub migrate : Step
migrate c = then_do (exec unchanged c) (λ c'. restored c.schema (in_transaction c'))
