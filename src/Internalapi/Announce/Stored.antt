-- ===== src/Internalapi/Announce/Stored.antt =====
-- What a run of the announce handler leaves in the announcements table, announce_handler.go.
use audistro_provider.Prelude.{
  ◌≡◌, refl, sym, ◌⊎◌, inl, inr, true, false, Bool, Option, none, some, List, [], ◌∷◌, Text, arith,
  Option-cases, if◌then◌else◌, Bool-cases, text_eq, text_eq_iff, text_eq_refl, ◌∙◌,
}
use audistro_provider.Go.Time.{Instant, of_unix}
use audistro_provider.Go.Strings.{trim_space, trim_left, trim_right}
use audistro_provider.Go.Map.{Map, lookup, HasDistinctKeys}
use audistro_provider.Repository.Db.{Db, AssetRow, AssetStatus, AnnouncementStatus}
use audistro_provider.Repository.Assets.{list_active_asset_ids, active_ids, contains}
use audistro_provider.Repository.Assets.Active.{contains-active_ids, is_some_active}
use audistro_provider.Repository.Announcements.Quiet.{
  IsQuiet, upsert-IsQuiet, HasStatus, upsert-HasStatus, upsert-HasStatus_other,
}
use audistro_provider.Repository.Announcements.{upsert_announcement_status}
use audistro_provider.Catalog.Client.{CatalogError, AnnounceRequest, announce}
use audistro_provider.Catalog.Signing.{build_announcement, is_blank}
use audistro_provider.Catalog.HealthState.{HealthState}
use audistro_provider.Internalapi.Announce.{
  AnnounceError, AnnounceEnv, Run, is_not_found, fail_to_build, settle, announce_one, announce_all,
  start, on_ids, RequestBody, absent, end_of_file, malformed, asset, on_body, handle_announce,
}

-- What the catalog's answer says, and what a failure to sign says.
abbrev status_after : Option CatalogError → AnnouncementStatus
status_after none = AnnouncementStatus.ok
status_after (some err) =
    if is_not_found err then AnnouncementStatus.rejected else AnnouncementStatus.failed

abbrev outcome_of : AnnounceEnv → Option AnnounceRequest → AnnouncementStatus
outcome_of env none = AnnouncementStatus.failed
outcome_of env (some req) = status_after (announce (env.reply req)).0

abbrev pub outcome : AnnounceEnv → Instant → Text → AnnouncementStatus
outcome env now asset_id =
    outcome_of env (build_announcement env.announcer (env.crypto asset_id) asset_id now)

module _ (env : AnnounceEnv) (now : Instant) (table : Map AssetRow) where
  -- One round stores one status under its asset, which is the outcome.
  data IsPut (asset_id : Text) (r : Run) : Run → Type 0 where
    put :
        (last expires : Instant) (r' : Run)
        → r'.db
          ≡ (upsert_announcement_status asset_id last expires (outcome env now asset_id) now r.db).1
        → IsPut asset_id r r'

  settle-db :
      (asset_id : Text) (req : AnnounceRequest) (err : Option CatalogError) (r : Run)
      → (settle env now asset_id req err r).db
        ≡ (upsert_announcement_status asset_id now
            (of_unix req.expires_at)
            (status_after err)
            now
            r.db).1
  unfolding settle
  settle-db asset_id req none r = refl
  settle-db asset_id req (some err) r = elim (Bool-cases (is_not_found err)) [
    | inl gone ↦ rw gone refl
    | inr other ↦ rw other refl
  ]

  announce_one-IsPut :
      (asset_id : Text) (r : Run) → IsPut asset_id r (announce_one env now asset_id r)
  unfolding announce_one fail_to_build
  announce_one-IsPut asset_id r =
      elim (Option-cases (build_announcement env.announcer (env.crypto asset_id) asset_id now)) [
        | inl unsigned ↦ put 0 0 _ (rw unsigned refl)
        | inr (req, signed) ↦
            put now (of_unix req.expires_at) _ (rw signed (settle-db asset_id req _ r))
      ]

  IsPut-HasStatus :
      (asset_id id : Text) (row : AssetRow) (r r' : Run)
      → lookup asset_id table ≡ some row
      → IsQuiet table r.db
      → IsPut asset_id r r'
      → ((asset_id ≡ id) ⊎ HasStatus id (outcome env now id) r.db)
      → HasStatus id (outcome env now id) r'.db
  IsPut-HasStatus asset_id id row r r' known quiet (put last expires _ e) h =
      elim (Bool-cases (text_eq asset_id id)) [
        | inl same ↦
            let eq : asset_id ≡ id = (text_eq_iff _ _).0 same in
            rw e
              (rw (← eq) (upsert-HasStatus table asset_id row known last expires _ now r.db quiet))
        | inr other ↦ elim h [
          | inl eq ↦ absurd (ground (arith, text_eq_iff asset_id id))
          | inr kept ↦ rw e (
              upsert-HasStatus_other table asset_id row known id _ last expires _ now r.db quiet
                other kept)
        ]
      ]

  IsPut-IsQuiet :
      (asset_id : Text) (r r' : Run)
      → IsQuiet table r.db
      → IsPut asset_id r r'
      → IsQuiet table r'.db
  IsPut-IsQuiet asset_id r r' quiet (put last expires _ e) =
      rw e (upsert-IsQuiet table asset_id last expires _ now r.db quiet)

  announce_all-HasStatus :
      (ids : List Text) (id : Text) (r : Run)
      → ((k : Text) → contains ids k ≡ true → (row : AssetRow) × (lookup k table ≡ some row))
      → IsQuiet table r.db
      → (contains ids id ≡ true) ⊎ HasStatus id (outcome env now id) r.db
      → HasStatus id (outcome env now id) (announce_all env now ids r).db
  unfolding announce_all
  announce_all-HasStatus [] id r known quiet (inl h) = cc
  announce_all-HasStatus [] id r known quiet (inr h) = h
  announce_all-HasStatus (k ∷ ids) id r known quiet h =
      let (row, held) = known k (rw text_eq_refl refl) in
      let one = announce_one-IsPut k r in
      announce_all-HasStatus ids id (announce_one env now k r) (λ j e. known j (ground arith))
        (IsPut-IsQuiet k r _ quiet one)
        (elim h [
          | inr kept ↦ inr (IsPut-HasStatus k id row r _ held quiet one (inr kept))
          | inl among ↦ elim (Bool-cases (text_eq k id)) [
            | inl same ↦
                inr (IsPut-HasStatus k id row r _ held quiet one (inl ((text_eq_iff _ _).0 same)))
            | inr other ↦ inl (rw other at among)
          ]
        ])

known_row : (o : Option AssetRow) → is_some_active o ≡ true → (row : AssetRow) × (o ≡ some row)
known_row none e = cc
known_row (some row) e = (row, refl)

list_active-quiet :
    (db : Db) → db.faults ≡ [] → (list_active_asset_ids db).0 ≡ some (active_ids db.assets)
unfolding list_active_asset_ids
list_active-quiet db quiet = simp quiet refl

list_active-IsQuiet : (db : Db) → db.faults ≡ [] → IsQuiet db.assets (list_active_asset_ids db).1
unfolding list_active_asset_ids
list_active-IsQuiet db quiet = simp quiet (ground arith)

on_ids-HasStatus :
    (env : AnnounceEnv) (now : Instant) (sink : Option (HealthState AnnounceError)) (db : Db)
    (listed : Option (List Text) × Db) (id : Text)
    → HasDistinctKeys db.assets
    → listed.0 ≡ some (active_ids db.assets)
    → IsQuiet db.assets listed.1
    → contains (active_ids db.assets) id ≡ true
    → HasStatus id (outcome env now id) (on_ids env now listed sink).1.db
on_ids-HasStatus env now sink db (none, db') id keys e quiet among = cc
on_ids-HasStatus env now sink db (some ids, db') id keys e quiet among =
    let same : active_ids db.assets ≡ ids = cc in
    announce_all-HasStatus env now db.assets ids id (start env now ids db' sink)
      (λ k h.
        known_row (lookup k db.assets) (sym (contains-active_ids db.assets k keys) ∙ rw same h))
      quiet (inl (rw same at among))

-- The body names no asset: there is none, which reads as the end of the file, or its asset_id is
-- blank or left out.
abbrev pub names_none : RequestBody → Bool
names_none absent = true
names_none end_of_file = true
names_none malformed = false
names_none (asset id) = is_blank id

on_body-named :
    (env : AnnounceEnv) (now : Instant) (body : RequestBody) (db : Db)
    (sink : Option (HealthState AnnounceError))
    → names_none body ≡ true
    → on_body env now body db sink ≡ on_ids env now (list_active_asset_ids db) sink
unfolding trim_space trim_left trim_right
on_body-named env now absent db sink e = refl
on_body-named env now end_of_file db sink e = refl
on_body-named env now malformed db sink e = cc
on_body-named env now (asset id) db sink e = rw e refl

-- Where no call of the database fails and the primary key holds, a POST whose body is empty or names
-- no asset stores for every active asset the outcome of its announcement: ok, rejected where the
-- catalog does not know it, or failed. The settings have a public URL and a catalog.
pub handle_announce-HasStatus :
    (env : AnnounceEnv) (now : Instant) (db : Db) (sink : Option (HealthState AnnounceError))
    (body : RequestBody) (id : Text) (row : AssetRow)
    → names_none body ≡ true
    → is_blank env.announcer.public_base_url ≡ false
    → env.has_client ≡ true
    → db.faults ≡ []
    → HasDistinctKeys db.assets
    → lookup id db.assets ≡ some row
    → row.status ≡ AssetStatus.active
    → HasStatus id (outcome env now id) (handle_announce env now true body db sink).1.db
unfolding handle_announce
handle_announce-HasStatus env now db sink body id row none_named url client quiet keys at live =
    rw (url, client, on_body-named env now body db sink none_named)
      (on_ids-HasStatus env now sink db (list_active_asset_ids db) id keys
        (list_active-quiet db quiet) (list_active-IsQuiet db quiet)
        (contains-active_ids db.assets id keys ∙ rw (at, live) refl))
