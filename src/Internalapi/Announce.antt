-- ===== src/Internalapi/Announce.antt =====
-- internal/internalapi/announce_handler.go: the announcement of one asset or of every active one, on
-- request. The catalog and the libraries behind a signature are arguments.
pub mod Summary
pub mod Stored
pub mod Calls
use audistro_provider.Prelude.{
  ℕ, ◌+◌, Bool, true, false, not, Option, none, some, List, [], ◌∷◌, Text, codes, length,
  if◌then◌else◌,
}
use audistro_provider.Go.Int64.{ℤ}
use audistro_provider.Go.Time.{Instant, of_unix}
use audistro_provider.Go.Strings.{trim_space}
use audistro_provider.Repository.Db.{AnnouncementStatus, Db}
use audistro_provider.Repository.Assets.{list_active_asset_ids}
use audistro_provider.Repository.Announcements.{upsert_announcement_status}
use audistro_provider.Catalog.Client.{CatalogError, not_found, AnnounceRequest, Reply, announce}
use audistro_provider.Catalog.Signing.{Announcer, Crypto, build_announcement, is_blank}
use audistro_provider.Catalog.HealthState.{HealthState, set}

-- The error that the sink is given.
pub data AnnounceError : Type 0 where
  unsigned : AnnounceError
  refused : CatalogError → AnnounceError

-- What decoding the request's body gives; `asset` is its asset_id, empty where it has none.
pub data RequestBody : Type 0 where
  absent end_of_file malformed : RequestBody
  asset : Text → RequestBody

pub record AnnounceSummary : Type 0 where
  pub attempted : ℕ
  pub ok : ℕ
  pub rejected : ℕ
  pub failed : ℕ

pub record AnnounceEnv : Type 0 where
  pub announcer : Announcer
  pub has_client : Bool
  pub crypto : Text → Crypto
  pub reply : AnnounceRequest → Reply

-- `sink` is none where there is no errorSink; `sent` lists the requests, the last one first.
pub record Run : Type 0 where
  pub db : Db
  pub sink : Option (HealthState AnnounceError)
  pub summary : AnnounceSummary
  pub sent : List AnnounceRequest

pub data HttpAnswer : Type 0 where
  error_json : ℕ → Text → HttpAnswer
  summary_json : AnnounceSummary → HttpAnswer

abbrev pub report :
    Option AnnounceError → Option (HealthState AnnounceError) → Option (HealthState AnnounceError)
report err none = none
report err (some s) = some (set err s)

abbrev pub is_not_found : CatalogError → Bool
is_not_found not_found = true
is_not_found _ = false

module _ (env : AnnounceEnv) (now : Instant) where
  unfoldable pub fail_to_build : Text → Run → Run
  fail_to_build asset_id r = record r {
    summary = record r.summary { failed = r.summary.failed + 1 };
    db = (upsert_announcement_status asset_id 0 0 AnnouncementStatus.failed now r.db).1;
    sink = report (some unsigned) r.sink;
  }

  abbrev put : Text → AnnounceRequest → AnnouncementStatus → Db → Db
  put asset_id req status db =
      (upsert_announcement_status asset_id now (of_unix req.expires_at) status now db).1

  -- The part of the loop behind the catalog's answer.
  unfoldable pub settle : Text → AnnounceRequest → Option CatalogError → Run → Run
  settle asset_id req none r = record r {
    summary = record r.summary { ok = r.summary.ok + 1 };
    db = put asset_id req AnnouncementStatus.ok r.db;
    sink = report none r.sink;
    sent = req ∷ r.sent;
  }
  settle asset_id req (some err) r =
      if is_not_found err
      then (record r {
        summary = record r.summary { rejected = r.summary.rejected + 1 };
        db = put asset_id req AnnouncementStatus.rejected r.db;
        sink = report (some (refused err)) r.sink;
        sent = req ∷ r.sent;
      })
      else (record r {
        summary = record r.summary { failed = r.summary.failed + 1 };
        db = put asset_id req AnnouncementStatus.failed r.db;
        sink = report (some (refused err)) r.sink;
        sent = req ∷ r.sent;
      })

  abbrev pub on_request : Text → Option AnnounceRequest → Run → Run
  on_request asset_id none r = fail_to_build asset_id r
  on_request asset_id (some req) r = settle asset_id req (announce (env.reply req)).0 r

  -- One round of the loop.
  unfoldable pub announce_one : Text → Run → Run
  unfolding fail_to_build settle
  announce_one asset_id r =
      on_request asset_id (build_announcement env.announcer (env.crypto asset_id) asset_id now) r

  unfoldable pub announce_all : List Text → Run → Run
  unfolding announce_one
  announce_all [] r = r
  announce_all (asset_id ∷ ids) r = announce_all ids (announce_one asset_id r)

  abbrev pub start : List Text → Db → Option (HealthState AnnounceError) → Run
  start ids db sink = record {
    db = db;
    sink = sink;
    summary = record { attempted = length ids; ok = 0; rejected = 0; failed = 0 };
    sent = [];
  }

  abbrev pub refuse : ℕ → Text → Db → Option (HealthState AnnounceError) → HttpAnswer × Run
  refuse status code db sink = (error_json status code, start [] db sink)

  abbrev pub answer : Run → HttpAnswer × Run
  answer r = (summary_json r.summary, r)

  abbrev pub on_ids :
      Option (List Text) × Db → Option (HealthState AnnounceError) → HttpAnswer × Run
  on_ids (none, db) sink = refuse 500 (codes "db_active_assets_failed") db sink
  on_ids (some ids, db) sink = answer (announce_all ids (start ids db sink))

  abbrev pub named : Text → Db → Option (HealthState AnnounceError) → HttpAnswer × Run
  named asset_id db sink =
      if is_blank asset_id
      then on_ids (list_active_asset_ids db) sink
      else on_ids (some (trim_space asset_id ∷ []), db) sink

  abbrev pub on_body : RequestBody → Db → Option (HealthState AnnounceError) → HttpAnswer × Run
  on_body malformed db sink = refuse 400 (codes "invalid_json") db sink
  on_body (asset asset_id) db sink = named asset_id db sink
  on_body absent db sink = named [] db sink
  on_body end_of_file db sink = named [] db sink

  -- The handler of `NewAnnounceHandler`; `is_post` says that the method is POST.
  unfoldable pub handle_announce :
      Bool → RequestBody → Db → Option (HealthState AnnounceError) → HttpAnswer × Run
  unfolding announce_all
  handle_announce is_post body db sink =
      if not is_post
      then refuse 405 (codes "method_not_allowed") db sink
      else if is_blank env.announcer.public_base_url
      then refuse 400 (codes "public_base_url_required") db sink
      else if not env.has_client
      then refuse 503 (codes "catalog_not_configured") db sink
      else on_body body db sink
