-- ===== src/Internalapi/Announce/Summary.antt =====
-- The numbers that the announce handler answers, announce_handler.go.
use audistro_provider.Prelude.{
  ℕ, ◌+◌, ◌≤◌, ◌≡◌, refl, Bool, not, Option, none, some, List, [], ◌∷◌, Text, arith, length,
  split_if,
}
use audistro_provider.Go.Time.{Instant}
use audistro_provider.Go.Strings.{trim_space}
use audistro_provider.Go.Strings.{trim_space}
use audistro_provider.Repository.Db.{Db}
use audistro_provider.Repository.Assets.{list_active_asset_ids}
use audistro_provider.Catalog.Client.{CatalogError, AnnounceRequest}
use audistro_provider.Catalog.Signing.{is_blank}
use audistro_provider.Catalog.HealthState.{HealthState}
use audistro_provider.Internalapi.Announce.{
  named, on_body, absent, end_of_file, malformed, asset, AnnounceError, RequestBody, AnnounceEnv,
  Run, HttpAnswer, error_json, summary_json, is_not_found, fail_to_build, settle, on_request,
  announce_one, announce_all, start, on_ids, handle_announce,
}

-- The counts after `n` rounds of a run over `total` assets.
pub record IsTallied (total n : ℕ) (r : Run) : Type 0 where
  pub attempted : r.summary.attempted ≡ total
  pub ended : r.summary.ok + r.summary.rejected + r.summary.failed ≡ n
  pub answered : r.summary.ok + r.summary.rejected ≤ length r.sent
  pub once_each : length r.sent ≤ n

module _ (env : AnnounceEnv) (now : Instant) (total : ℕ) where
  settle-IsTallied :
      (n : ℕ) (asset_id : Text) (req : AnnounceRequest) (err : Option CatalogError) (r : Run)
      → IsTallied total n r
      → IsTallied total (n + 1) (settle env now asset_id req err r)
  unfolding settle
  settle-IsTallied n asset_id req none r h = omega arith
  settle-IsTallied n asset_id req (some err) r h =
      split_if (IsTallied total (n + 1)) (is_not_found err) (λ e. omega arith) (λ e. omega arith)

  on_request-IsTallied :
      (n : ℕ) (asset_id : Text) (req : Option AnnounceRequest) (r : Run)
      → IsTallied total n r
      → IsTallied total (n + 1) (on_request env now asset_id req r)
  unfolding fail_to_build
  on_request-IsTallied n asset_id none r h = omega arith
  on_request-IsTallied n asset_id (some req) r h = settle-IsTallied n asset_id req _ r h

  announce_all-IsTallied :
      (n : ℕ) (ids : List Text) (r : Run)
      → IsTallied total n r
      → IsTallied total (n + length ids) (announce_all env now ids r)
  unfolding announce_all announce_one
  announce_all-IsTallied n [] r h = omega arith
  announce_all-IsTallied n (asset_id ∷ ids) r h =
      let rest =
        announce_all-IsTallied (n + 1) ids (announce_one env now asset_id r)
          (on_request-IsTallied n asset_id _ r h) in
      omega arith

-- An error is answered before the first request to the catalog; a summary counts each of its assets
-- once, as ok, rejected or failed, and the catalog is asked at least as often as an ok or a rejection
-- is counted, and at most once for each asset.
pub data IsReport : HttpAnswer × Run → Type 0 where
  refused :
      (status : ℕ) (code : Text) (r : Run) → r.sent ≡ [] → IsReport (error_json status code, r)
  reported :
      (r : Run)
      → IsTallied (r.summary.attempted) (r.summary.attempted) r
      → IsReport (summary_json r.summary, r)

module _ (env : AnnounceEnv) (now : Instant) where
  on_ids-IsReport :
      (ids : Option (List Text) × Db) (sink : Option (HealthState AnnounceError))
      → IsReport (on_ids env now ids sink)
  on_ids-IsReport (none, db) sink = refused _ _ _ refl
  on_ids-IsReport (some ids, db) sink =
      let done =
        announce_all-IsTallied env now (length ids) 0 ids (start env now ids db sink) (record {
          attempted = refl;
          ended = refl;
          answered = omega arith;
          once_each = omega arith;
        }) in
      reported _ (record {
        attempted = refl;
        ended = omega arith;
        answered = done.answered;
        once_each = omega arith;
      })

  named-IsReport :
      (asset_id : Text) (db : Db) (sink : Option (HealthState AnnounceError))
      → IsReport (named env now asset_id db sink)
  named-IsReport asset_id db sink =
      split_if IsReport (is_blank asset_id) (λ e. on_ids-IsReport (list_active_asset_ids db) sink)
        (λ e. on_ids-IsReport (some (trim_space asset_id ∷ []), db) sink)

  on_body-IsReport :
      (body : RequestBody) (db : Db) (sink : Option (HealthState AnnounceError))
      → IsReport (on_body env now body db sink)
  on_body-IsReport malformed db sink = refused _ _ _ refl
  on_body-IsReport absent db sink = named-IsReport [] db sink
  on_body-IsReport end_of_file db sink = named-IsReport [] db sink
  on_body-IsReport (asset asset_id) db sink = named-IsReport asset_id db sink

  -- The handler answers an error before it asks the catalog anything, or a summary that counts each
  -- asset once, as ok, rejected or failed, where the catalog was asked at least as often as an ok or a
  -- rejection is counted and at most once for each asset.
  pub handle_announce-IsReport :
      (is_post : Bool) (body : RequestBody) (db : Db) (sink : Option (HealthState AnnounceError))
      → IsReport (handle_announce env now is_post body db sink)
  unfolding handle_announce
  handle_announce-IsReport is_post body db sink =
      split_if IsReport (not is_post) (λ e. refused _ _ _ refl)
        (λ e.
          split_if IsReport (is_blank env.announcer.public_base_url) (λ e'. refused _ _ _ refl)
            (λ e'.
              split_if IsReport (not env.has_client) (λ e''. refused _ _ _ refl)
                (λ e''. on_body-IsReport body db sink)))
