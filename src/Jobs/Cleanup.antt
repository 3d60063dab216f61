-- ===== src/Jobs/Cleanup.antt =====
-- internal/jobs/cleanup_job.go: announcements past their expiry and a grace time are marked.
use audistro_provider.Prelude.{
  ℕ, zero, suc, ◌+◌, ◌-◌, ◌*◌, ◌/◌, ◌^◌, ◌≤◌, ◌<◌, ◌≡◌, refl, ◌↔◌, ◌⊎◌, ◌≢◌, some, map, Text, arith,
  Bool-cases, inl, inr,
}
use audistro_provider.Go.Int64.{ℤ, pos, negsuc, ◌-ℤ◌, ◌*ℤ◌, wrap}
use audistro_provider.Go.Time.{Instant, add, unix, of_unix, of_unix-unix, second}
use audistro_provider.Go.Map.{lookup}
use audistro_provider.Repository.Db.{
  expired, Stamp, blank, garbled, at, StoredAnnouncement, Db, Query, to_seconds,
}
use audistro_provider.Repository.Announcements.Expiry.{lookup-map-expire_row}
use audistro_provider.Repository.Announcements.{
  expires_now, expire_row, expired_row, mark_expired_before,
}

-- `-time.Duration(graceSeconds) * time.Second`.
abbrev back_by : ℤ → ℤ
back_by grace_seconds = (pos 0 -ℤ grace_seconds) *ℤ pos second

unfoldable pub cutoff : ℤ → Instant → ℤ
cutoff grace_seconds now = unix (add now (back_by grace_seconds))

-- `RunCleanupJob`: `now` is what its clock reads, `later` what `MarkExpiredBefore` reads itself.
unfoldable pub run_cleanup_job : ℤ → Instant → Instant → Query ℕ
unfolding cutoff
run_cleanup_job grace_seconds now later = mark_expired_before (cutoff grace_seconds now) later

negate-pos : (k : ℕ) → k < 2 ^ 32 → pos 0 -ℤ pos (suc k) ≡ negsuc k
unfolding ◌-ℤ◌ wrap
negate-pos k small = ground arith

scale-negsuc : (k : ℕ) → k < 2 ^ 32 → negsuc k *ℤ pos second ≡ negsuc (k * second + (second - 1))
unfolding ◌*ℤ◌ wrap
scale-negsuc k small = ground arith

add-back_by : (g : ℕ) (now : Instant) → g < 2 ^ 32 → add now (back_by (pos g)) ≡ now - g * second
add-back_by zero now small = unfold ◌-ℤ◌ ◌*ℤ◌ wrap in omega arith
add-back_by (suc k) now small =
    rw (negate-pos k (omega arith), scale-negsuc k (omega arith)) (omega arith)

-- For a grace of up to 2 ^ 32 seconds that the clock is past, the cutoff is the clock less the grace.
of_unix-cutoff :
    (g : ℕ) (now : Instant)
    → g < 2 ^ 32
    → g * second ≤ now
    → to_seconds (of_unix (cutoff (pos g) now)) ≡ now / second - g
unfolding cutoff
of_unix-cutoff g now small past =
    omega (arith, of_unix-unix (add now (back_by (pos g))), add-back_by g now small)

-- Whether an announcement is marked by a cleanup: it is not yet, and its expiry and the grace, in
-- seconds, lie before the clock's second.
abbrev pub IsOverdue : ℕ → Instant → StoredAnnouncement → Type 0
IsOverdue g now row =
    (row.status ≢ expired) × ((s : ℕ) × (row.expires_at ≡ at s) × (s + g < now / second))

status-expired_row :
    (g : ℕ) (now later : Instant) (row : StoredAnnouncement) (e : Stamp)
    → row.expires_at ≡ e
    → ((s : ℕ) → e ≢ garbled s)
    → ((expired_row (now / second - g) later row).status ≡ expired)
      ↔ ((row.status ≡ expired) ⊎ IsOverdue g now row)
status-expired_row g now later row blank same clean = (λ h. ground arith, λ h. ground arith)
status-expired_row g now later row (garbled p) same clean = absurd (clean p refl)
status-expired_row g now later row (at s) same clean = (λ h. became h, λ h. ground arith)
  where
    became :
        (expired_row (now / second - g) later row).status ≡ expired
        → (row.status ≡ expired) ⊎ IsOverdue g now row
    became h = elim (Bool-cases (expires_now (now / second - g) row)) [
      | inl due ↦ inr (ground arith, (s, same, ground arith))
      | inr kept ↦ inl (ground arith)
    ]

mark-announcements :
    (cut : ℤ) (later : Instant) (db : Db) (n : ℕ)
    → (mark_expired_before cut later db).0 ≡ some n
    → (mark_expired_before cut later db).1.announcements
      ≡ map (expire_row (to_seconds (of_unix cut)) later) db.announcements
unfolding mark_expired_before
mark-announcements cut later db n e = ground arith

-- A cleanup that succeeds leaves each announcement in place with its expiry, and it is marked as
-- expired afterwards exactly if it was before or is overdue: its expiry and the grace together lie
-- before the clock. This is for a stored expiry that is empty or a time, and a grace below 2 ^ 32
-- seconds that the clock is past.
pub run_cleanup_job-marks :
    (g : ℕ) (now later : Instant) (db : Db) (n : ℕ) (id : Text) (row : StoredAnnouncement)
    → (run_cleanup_job (pos g) now later db).0 ≡ some n
    → lookup id db.announcements ≡ some row
    → ((s : ℕ) → row.expires_at ≢ garbled s)
    → g < 2 ^ 32
    → g * second ≤ now
    → (row' : StoredAnnouncement) × (lookup id
          (run_cleanup_job (pos g) now later db).1.announcements
        ≡ some row')
      × (row'.expires_at ≡ row.expires_at)
      × ((row'.status ≡ expired) ↔ ((row.status ≡ expired) ⊎ IsOverdue g now row))
unfolding run_cleanup_job
run_cleanup_job-marks g now later db n id row ran known clean small past = (
  expired_row (now / second - g) later row,
  rw
      (
        mark-announcements (cutoff (pos g) now) later db n ran,
        lookup-map-expire_row,
        known,
        of_unix-cutoff g now small past,
      )
      refl,
  ground arith,
  status-expired_row g now later row row.expires_at refl clean,
)
