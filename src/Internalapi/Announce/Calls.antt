-- ===== src/Internalapi/Announce/Calls.antt =====
-- The announce handler as a sequence of calls of the repository, announce_handler.go, on a connection
-- that enforces the foreign key: a request may name an asset that has no row.
use audistro_provider.Prelude.{
  Bool, not, Option, none, some, List, [], ◌∷◌, Text, split_if, arith, text_eq_refl, refl, ◌≡◌,
  true, inl,
}
use audistro_provider.Go.Time.{Instant, of_unix}
use audistro_provider.Go.Strings.{trim_space}
use audistro_provider.Repository.Db.{Db}
use audistro_provider.Repository.Assets.{list_active_asset_ids}
use audistro_provider.Repository.Changes.{Changes, none_yet, IsGuarded}
use audistro_provider.Repository.Changes.Guarded.{
  Changes-IsGuarded, AllGuarded, list_active-AllGuarded,
}
use audistro_provider.Repository.Changes.Calls.{
  Change-Changes, Changes-append, list_active-Change, upsert_announcement-Change,
}
use audistro_provider.Catalog.Client.{AnnounceRequest, CatalogError}
use audistro_provider.Catalog.Signing.{is_blank}
use audistro_provider.Catalog.HealthState.{HealthState}
use audistro_provider.Internalapi.Announce.{
  AnnounceError, AnnounceEnv, Run, HttpAnswer, RequestBody, absent, end_of_file, malformed, asset,
  is_not_found, fail_to_build, settle, on_request, announce_one, announce_all, start, on_ids, named,
  on_body, handle_announce,
}

module _ (env : AnnounceEnv) (now : Instant) where
  settle-Changes :
      (id : Text) (req : AnnounceRequest) (err : Option CatalogError) (r : Run)
      → IsGuarded id r.db
      → Changes r.db (settle env now id req err r).db
  unfolding settle
  settle-Changes id req none r guarded =
      Change-Changes r.db _
        (upsert_announcement-Change id now (of_unix req.expires_at) _ now r.db guarded)
  settle-Changes id req (some err) r guarded =
      split_if (λ (t : Run). Changes r.db t.db) (is_not_found err)
        (λ e.
          Change-Changes r.db _
            (upsert_announcement-Change id now (of_unix req.expires_at) _ now r.db guarded))
        (λ e.
          Change-Changes r.db _
            (upsert_announcement-Change id now (of_unix req.expires_at) _ now r.db guarded))

  on_request-Changes :
      (id : Text) (req : Option AnnounceRequest) (r : Run)
      → IsGuarded id r.db
      → Changes r.db (on_request env now id req r).db
  unfolding fail_to_build
  on_request-Changes id none r guarded =
      Change-Changes r.db _ (upsert_announcement-Change id 0 0 _ now r.db guarded)
  on_request-Changes id (some req) r guarded = settle-Changes id req _ r guarded

  announce_all-Changes :
      (ids : List Text) (r : Run)
      → AllGuarded ids r.db
      → Changes r.db (announce_all env now ids r).db
  unfolding announce_all announce_one
  announce_all-Changes [] r guarded = none_yet
  announce_all-Changes (id ∷ ids) r guarded =
      let one : Changes r.db (announce_one env now id r).db =
        on_request-Changes id _ r (guarded id (rw text_eq_refl refl)) in
      Changes-append r.db _ _ one (
        announce_all-Changes ids (announce_one env now id r)
          (λ k among. Changes-IsGuarded k r.db _ one (guarded k (ground arith))))

  on_ids-Changes :
      (r : Option (List Text) × Db) (sink : Option (HealthState AnnounceError))
      → ((ids : List Text) → r.0 ≡ some ids → AllGuarded ids r.1)
      → Changes r.1 (on_ids env now r sink).1.db
  on_ids-Changes (none, db) sink guarded = none_yet
  on_ids-Changes (some ids, db) sink guarded =
      announce_all-Changes ids (start env now ids db sink) (guarded ids refl)

  named-Changes :
      (id : Text) (db : Db) (sink : Option (HealthState AnnounceError))
      → db.foreign_keys ≡ true
      → Changes db (named env now id db sink).1.db
  named-Changes id db sink on =
      split_if (λ (t : HttpAnswer × Run). Changes db t.1.db) (is_blank id)
        (λ e.
          Changes-append db (list_active_asset_ids db).1 _
            (Change-Changes db _ (list_active-Change db))
            (on_ids-Changes (list_active_asset_ids db) sink (list_active-AllGuarded db)))
        (λ e. on_ids-Changes (some (trim_space id ∷ []), db) sink (λ ids same k among. inl on))

  on_body-Changes :
      (body : RequestBody) (db : Db) (sink : Option (HealthState AnnounceError))
      → db.foreign_keys ≡ true
      → Changes db (on_body env now body db sink).1.db
  on_body-Changes malformed db sink on = none_yet
  on_body-Changes absent db sink on = named-Changes [] db sink on
  on_body-Changes end_of_file db sink on = named-Changes [] db sink on
  on_body-Changes (asset id) db sink on = named-Changes id db sink on

  pub handle_announce-Changes :
      (is_post : Bool) (body : RequestBody) (db : Db) (sink : Option (HealthState AnnounceError))
      → db.foreign_keys ≡ true
      → Changes db (handle_announce env now is_post body db sink).1.db
  unfolding handle_announce
  handle_announce-Changes is_post body db sink on =
      split_if (λ (t : HttpAnswer × Run). Changes db t.1.db) (not is_post) (λ e. none_yet)
        (λ e.
          split_if (λ (t : HttpAnswer × Run). Changes db t.1.db)
            (is_blank env.announcer.public_base_url) (λ e'. none_yet)
            (λ e'.
              split_if (λ (t : HttpAnswer × Run). Changes db t.1.db) (not env.has_client)
                (λ e''. none_yet) (λ e''. on_body-Changes body db sink on)))
