-- ===== src/Jobs/Sweep/Deferral.antt =====
-- Which assets a sweep asks the catalog about.
use audistro_provider.Prelude.{
  ◌≡◌, refl, ◌⊎◌, Bool, true, false, Option, none, some, List, [], ◌∷◌, Text, arith, text_eq,
  text_eq_iff, Bool-cases, Option-cases, inl, inr, All,
}
use audistro_provider.Go.Time.{Instant}
use audistro_provider.Go.Map.{HasDistinctKeys}
use audistro_provider.Repository.Db.{Db}
use audistro_provider.Repository.Assets.{list_active_asset_ids, active_ids, contains}
use audistro_provider.Repository.Assets.Tables.{IsDistinct}
use audistro_provider.Repository.Assets.Active.{IsDistinct-active_ids}
use audistro_provider.Repository.Announcements.{AnnouncementRow, get_announcement}
use audistro_provider.Catalog.Client.{AnnounceRequest}
use audistro_provider.Catalog.Signing.{build_announcement, build_announcement-fields}
use audistro_provider.Jobs.Backoff.{ErrorClass, BackoffState, can_attempt, record_class}
use audistro_provider.Jobs.Backoff.Record.{can_attempt-record_class}
use audistro_provider.Jobs.Sweep.{
  SweepEnv, Sweep, needs_reannounce, attempt, on_row, sweep_one, sweep_all, threshold, start,
  run_announce_sweep, on_ids,
}

can_attempt-record_other :
    (b : BackoffState) (draw : _) (asset_id other : Text) (class : ErrorClass) (now : Instant)
    → text_eq asset_id other ≡ false
    → can_attempt (record_class b draw asset_id class now) other now ≡ can_attempt b other now
can_attempt-record_other b draw asset_id other class now h =
    rw (can_attempt-record_class b draw asset_id other class now now, h) refl

-- What one round does to the requests sent and to the back-off of the other assets.
record Round (asset_id : Text) (now : Instant) (s s' : Sweep) : Type 0 where
  sends :
      (s'.sent ≡ s.sent)
      ⊎ ((req : AnnounceRequest) × (s'.sent ≡ req ∷ s.sent)
          × (req.asset_id ≡ asset_id)
          × (can_attempt s.backoff asset_id now ≡ true))
  keeps :
      (other : Text)
      → text_eq asset_id other ≡ false
      → can_attempt s'.backoff other now ≡ can_attempt s.backoff other now

ne_of_absent :
    (ids : List Text) (id k : Text)
    → contains ids id ≡ false
    → contains ids k ≡ true
    → text_eq id k ≡ false
ne_of_absent ids id k free listed = elim (Bool-cases (text_eq id k)) [
  | inl same ↦
      let eq : id ≡ k = (text_eq_iff _ _).0 same in
      let clash : contains ids k ≡ false = rw (← eq) free in absurd (ground arith)
  | inr other ↦ other
]

-- What holds of every request that may be sent for an asset of the list.
abbrev HoldsOfNew : (AnnounceRequest → Type 0) → List Text → BackoffState → Instant → Type 0
HoldsOfNew P ids b now =
    (req : AnnounceRequest)
    → contains ids req.asset_id ≡ true
    → can_attempt b req.asset_id now ≡ true
    → P req

module _ (P : AnnounceRequest → Type 0) {now : Instant} {id : Text} (ids : List Text) where
  sent_after :
      {s s' : Sweep}
      → Round id now s s'
      → All P s.sent
      → HoldsOfNew P (id ∷ ids) s.backoff now
      → All P s'.sent
  sent_after round before new = elim round.sends [
    | inl same ↦ rw same before
    | inr (req, more, named, free) ↦
        rw more (new req (ground (arith, text_eq_iff id req.asset_id)) (rw named free), before)
  ]

  new_after :
      {s s' : Sweep}
      → Round id now s s'
      → contains ids id ≡ false
      → HoldsOfNew P (id ∷ ids) s.backoff now
      → HoldsOfNew P ids s'.backoff now
  new_after round free new req listed may =
      let differs = ne_of_absent ids id req.asset_id free listed in
      new req (ground arith) (rw (round.keeps req.asset_id differs) at may)

module _ (env : SweepEnv) (now : Instant) where
  attempt-Round :
      (asset_id : Text) (s : Sweep)
      → can_attempt s.backoff asset_id now ≡ true
      → Round asset_id now s (attempt env now asset_id s)
  unfolding attempt
  attempt-Round asset_id s free =
      elim (Option-cases (build_announcement env.announcer (env.crypto asset_id) asset_id now)) [
        | inl unbuilt ↦ rw unbuilt (record {
          sends = inl refl;
          keeps = λ other h. can_attempt-record_other s.backoff _ asset_id other _ now h;
        })
        | inr (req, built) ↦ rw built (record {
          sends = inr (req, refl, (build_announcement-fields _ _ asset_id now req built).0, free);
          keeps = λ other h. can_attempt-record_other s.backoff _ asset_id other _ now h;
        })
      ]

  on_row-Round :
      (asset_id : Text) (row : Option (Option AnnouncementRow)) (s : Sweep)
      → Round asset_id now s (on_row env now asset_id row s)
  unfolding on_row
  on_row-Round asset_id none s = record { sends = inl refl; keeps = λ other h. refl }
  on_row-Round asset_id (some row) s =
      elim (Bool-cases (needs_reannounce row (threshold env now))) [
        | inl stale ↦ elim (Bool-cases (can_attempt s.backoff asset_id now)) [
          | inl free ↦ rw (stale, free) (attempt-Round asset_id s free)
          | inr waits ↦ rw (stale, waits) (record { sends = inl refl; keeps = λ other h. refl })
        ]
        | inr fresh ↦ rw fresh (record { sends = inl refl; keeps = λ other h. refl })
      ]

  sweep_all-sent :
      (P : AnnounceRequest → Type 0) (ids : List Text) (s : Sweep)
      → IsDistinct ids
      → All P s.sent
      → HoldsOfNew P ids s.backoff now
      → All P (sweep_all env now ids s).sent
  unfolding sweep_all sweep_one
  sweep_all-sent P [] s d before new = before
  sweep_all-sent P (id ∷ ids) s (free, d) before new =
      let (row, db) = get_announcement id s.db in
      let round = on_row-Round id row (record s { db = db }) in
      sweep_all-sent P ids _ d (sent_after P ids round before new) (new_after P ids round free new)

-- A request that a sweep may send: for an active asset, whose back-off allows an attempt now.
abbrev pub IsPermitted : Db → BackoffState → Instant → AnnounceRequest → Type 0
IsPermitted db backoff now req =
    (contains (active_ids db.assets) req.asset_id ≡ true)
    × (can_attempt backoff req.asset_id now ≡ true)

on_ids-IsPermitted :
    (env : SweepEnv) (now : Instant) (db : Db) (backoff : BackoffState)
    (listed : Option (List Text) × Db)
    → ((ids : List Text) → listed.0 ≡ some ids → ids ≡ active_ids db.assets)
    → HasDistinctKeys db.assets
    → All (IsPermitted db backoff now) (on_ids env now listed backoff).1.sent
on_ids-IsPermitted env now db backoff (none, db') same keys = tt
on_ids-IsPermitted env now db backoff (some ids, db') same keys = rw (same ids refl) (
    sweep_all-sent env now (IsPermitted db backoff now) (active_ids db.assets)
      (start env now db' backoff) (IsDistinct-active_ids db.assets keys) tt
      (λ req listed may. (listed, may)))

listed_ids :
    (db : Db) (ids : List Text)
    → (list_active_asset_ids db).0 ≡ some ids
    → ids ≡ active_ids db.assets
unfolding list_active_asset_ids
listed_ids db ids e = ground arith

-- A sweep asks the catalog only about assets that are active when it starts and whose back-off, as
-- it stood before the sweep, allows an attempt: what the sweep itself records never opens or closes
-- the way for another asset. This is for a table that keeps its primary key.
pub run_announce_sweep-IsPermitted :
    (env : SweepEnv) (now : Instant) (configured : Bool) (db : Db) (backoff : BackoffState)
    → HasDistinctKeys db.assets
    → All (IsPermitted db backoff now) (run_announce_sweep env now configured db backoff).1.sent
unfolding run_announce_sweep
run_announce_sweep-IsPermitted env now false db backoff keys = tt
run_announce_sweep-IsPermitted env now true db backoff keys =
    on_ids-IsPermitted env now db backoff (list_active_asset_ids db) (listed_ids db) keys
