-- ===== src/Repository/Migration/Again.antt =====
-- A second migration, db.go.
use audistro_provider.Prelude.{◌≡◌, refl, true, some, List, [], ◌∷◌, Text}
use audistro_provider.Go.Int64.{pos}
use audistro_provider.Repository.Migration.{
  Schema, current_schema_version, stmts, exec_all, ensure_announcement_column, ensure_all,
  ensured_columns, migrate,
}
use audistro_provider.Repository.Migration.Current.{HasAll}

ensure_all-kept :
    (ks : List Text) (s : Schema)
    → HasAll ks s
    → ensure_all ks (record { schema = s; answers = [] })
      ≡ (true, record { schema = s; answers = [] })
unfolding ensure_all ensure_announcement_column
ensure_all-kept [] s h = refl
ensure_all-kept (k ∷ ks) s (here, h) = rw here (ensure_all-kept ks s h)

-- A schema at version 1 whose announcements have the given columns.
abbrev pub current : List Text → Schema
current names = record {
  version = some (pos 1);
  has_assets = true;
  announcements = some names;
  has_index = true;
}

-- Where no call fails, a migration of a schema that is migrated already works and changes nothing.
pub migrate-migrated :
    (names : List Text)
    → HasAll ensured_columns (current names)
    → migrate (record { schema = current names; answers = [] })
      ≡ (true, record { schema = current names; answers = [] })
unfolding migrate exec_all stmts current_schema_version
migrate-migrated names h = rw (ensure_all-kept ensured_columns (current names) h) refl
