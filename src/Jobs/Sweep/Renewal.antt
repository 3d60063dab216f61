-- ===== src/Jobs/Sweep/Renewal.antt =====
-- When an announced asset is announced again, `needsReannounce` of announce_sweep.go.
use audistro_provider.Prelude.{
  ◌*◌, ◌/◌, ◌≤◌, ◌<◌, ◌≡◌, ◌≢◌, ◌↔◌, false, Option, some, none, Text, arith, ◌⊎◌, ap, ◌∙◌, inl, inr,
  ◌+◌, [], refl, not, split_if,
}
use audistro_provider.Go.Time.{Instant, second, of_unix, year_10000}
use audistro_provider.Go.Map.{lookup}
use audistro_provider.Repository.Db.{refused, Db, met, AssetRow}
use audistro_provider.Repository.Announcements.{
  AnnouncementRow, upsert_announcement_status, get_announcement,
}
use audistro_provider.Repository.Announcements.Stored.{get-upsert}
use audistro_provider.Repository.Announcements.Quiet.{IsQuiet, upsert-some, upsert-IsQuiet}
use audistro_provider.Catalog.Client.{AnnounceRequest}
use audistro_provider.Jobs.Backoff.{ErrorClass, can_attempt}
use audistro_provider.Jobs.Sweep.{
  SweepEnv, Sweep, needs_reannounce, status_of, fail_to_build, settle, on_request, attempt,
  threshold, on_row, sweep_one,
}

-- An announcement that was stored with the class of an attempt is not to be repeated exactly when that
-- was a success and the expiry, in whole seconds, is neither the zero time nor before the threshold.
-- This is for times before year 10000.
needs_reannounce-upsert :
    (asset_id : Text) (class : ErrorClass) (expires threshold now : Instant) (db : Db)
    → now / second < year_10000
    → expires / second < year_10000
    → (upsert_announcement_status asset_id now expires (status_of class) now db).0 ≡ some tt
    → met (upsert_announcement_status asset_id now expires (status_of class) now db).1 ≢ refused
    → (row : Option AnnouncementRow) × ((get_announcement asset_id
          (upsert_announcement_status asset_id now expires (status_of class) now db).1).0
        ≡ some row)
      × ((needs_reannounce row threshold ≡ false) ↔ (
          (class ≡ ErrorClass.ok)
          × (0 < expires / second)
          × (threshold ≤ expires / second * second)))
unfolding needs_reannounce
needs_reannounce-upsert asset_id class expires threshold now db early early' put reads =
    let (row, got, status, last, until) =
      get-upsert asset_id now expires (status_of class) now db early early' put reads in
    (some row, got, stale_iff class row status until)
  where
    stale_iff :
        (class : ErrorClass) (row : AnnouncementRow)
        → row.status ≡ status_of class
        → row.expires_at ≡ expires / second * second
        → (needs_reannounce (some row) threshold ≡ false) ↔ (
            (class ≡ ErrorClass.ok)
            × (0 < expires / second)
            × (threshold ≤ expires / second * second))
    stale_iff ErrorClass.ok row status until = ground arith
    stale_iff _ row status until = ground arith

met-quiet : (db : Db) → db.faults ≡ [] → met db ≢ refused
met-quiet db quiet = λ e. ground (arith, rw quiet at e)

module _ (env : SweepEnv) (later : Instant) where
  settle-attempted :
      (asset_id : Text) (req : AnnounceRequest) (class : ErrorClass) (s : Sweep)
      → (settle env later asset_id req class s).result.attempted ≡ s.result.attempted
  unfolding settle
  settle-attempted asset_id req ErrorClass.ok s = refl
  settle-attempted asset_id req ErrorClass.rejected s = refl
  settle-attempted asset_id req _ s = refl

  on_request-attempted :
      (asset_id : Text) (req : Option AnnounceRequest) (s : Sweep)
      → (on_request env later asset_id req s).result.attempted ≡ s.result.attempted
  unfolding fail_to_build
  on_request-attempted asset_id none s = refl
  on_request-attempted asset_id (some req) s = settle-attempted asset_id req _ s

  attempt-attempted :
      (asset_id : Text) (s : Sweep)
      → (attempt env later asset_id s).result.attempted ≡ s.result.attempted + 1
  unfolding attempt
  attempt-attempted asset_id s = on_request-attempted asset_id _ _

  on_row-attempted_iff :
      (asset_id : Text) (row : Option AnnouncementRow) (s : Sweep)
      → ((on_row env later asset_id (some row) s).result.attempted ≡ s.result.attempted) ↔ (
          (needs_reannounce row (threshold env later) ≡ false)
          ⊎ (can_attempt s.backoff asset_id later ≡ false))
  unfolding on_row
  on_row-attempted_iff asset_id row s =
      split_if (Passes row s) (not (needs_reannounce row (threshold env later)))
        (λ fresh. ((λ e. inl (ground arith)), (λ h. refl)))
        (λ stale.
          split_if (Passes row s) (not (can_attempt s.backoff asset_id later))
            (λ waits. ((λ e. inr (ground arith)), (λ h. refl)))
            (λ due. (
              (λ e. let more = attempt-attempted asset_id s in absurd (omega (arith, more, e))),
              (λ h. absurd (ground arith)),
            )))
    where
      Passes : Option AnnouncementRow → Sweep → Sweep → Type 0
      Passes row s t = (t.result.attempted ≡ s.result.attempted) ↔ (
          (needs_reannounce row (threshold env later) ≡ false)
          ⊎ (can_attempt s.backoff asset_id later ≡ false))

-- Once an attempt of class `class` has been stored, with the expiry that the catalog was given, a
-- later round of a sweep for the asset passes it over exactly when that attempt was a success whose
-- expiry, in whole seconds, is neither the zero time nor before the round's threshold, or when the
-- back-off does not allow an attempt yet. No call of the database fails, the asset has a row, and the
-- times are before year 10000.
pub sweep_one-attempted_iff :
    (env env' : SweepEnv) (now later : Instant) (asset_id : Text) (req : AnnounceRequest)
    (class : ErrorClass) (s t : Sweep) (row : AssetRow)
    → now / second < year_10000
    → of_unix req.expires_at / second < year_10000
    → s.db.faults ≡ []
    → lookup asset_id s.db.assets ≡ some row
    → t.db ≡ (settle env now asset_id req class s).db
    → ((sweep_one env' later asset_id t).result.attempted ≡ t.result.attempted) ↔ (
        ((class ≡ ErrorClass.ok)
          × (0 < of_unix req.expires_at / second)
          × (threshold env' later ≤ of_unix req.expires_at / second * second))
        ⊎ (can_attempt t.backoff asset_id later ≡ false))
unfolding sweep_one settle
sweep_one-attempted_iff env env' now later asset_id req class s t row early early' quiet known
      left =
    let expires = of_unix req.expires_at in
    let here : IsQuiet s.db.assets s.db = (quiet, refl) in
    let put =
      upsert-some s.db.assets asset_id now expires (status_of class) now s.db row here known in
    let after = upsert-IsQuiet s.db.assets asset_id now expires (status_of class) now s.db here in
    let (stored, got, fresh) =
      needs_reannounce-upsert asset_id class expires (threshold env' later) now s.db early early'
        put
        (met-quiet (upsert_announcement_status asset_id now expires (status_of class) now s.db).1
          after.0) in
    let same = ap (λ d. (get_announcement asset_id d).0) left in
    let (passed, passes) =
      on_row-attempted_iff env' later asset_id stored
        (record t { db = (get_announcement asset_id t.db).1 }) in
    rw (same ∙ got) (
      (λ e. elim (passed e) [ inl fine ↦ inl (fresh.0 fine) | inr waits ↦ inr waits ]),
      (λ h. passes (elim h [ inl fine ↦ inl (fresh.1 fine) | inr waits ↦ inr waits ])),
    )
