-- ===== src/Repository/Announcements/Expiry.antt =====
-- MarkExpiredBefore of announcements_repo.go, row by row.
use audistro_provider.Prelude.{
  ℕ, ◌≡◌, refl, [], ◌∷◌, map, Text, text_eq, text_eq_iff, Bool-cases, inl, inr,
}
use mathlib.Core.Option
use audistro_provider.Go.Time.{Instant}
use audistro_provider.Go.Map.{Map, lookup}
use audistro_provider.Repository.Db.{StoredAnnouncement}
use audistro_provider.Repository.Announcements.{expire_row, expired_row}

pub lookup-map-expire_row :
    (cut : ℕ) (now : Instant) (table : Map StoredAnnouncement) (id : Text)
    → lookup id (map (expire_row cut now) table)
      ≡ Option.map (λ row. expired_row cut now row) (lookup id table)
unfolding lookup
lookup-map-expire_row cut now [] id = refl
lookup-map-expire_row cut now ((k, row) ∷ table) id = elim (Bool-cases (text_eq k id)) [
  | inl same ↦ let eq : k ≡ id = (text_eq_iff _ _).0 same in rw same refl
  | inr other ↦ rw other (lookup-map-expire_row cut now table id)
]
