-- ===== src/Health.antt =====
-- internal/health/handler.go and readyz.go: what the provider says of itself. The clock and the texts
-- of the service are arguments.
use audistro_provider.Prelude.{
  ℕ, Bool, true, false, Option, none, some, [], Text, codes, if◌then◌else◌,
}
use audistro_provider.Go.Int64.{ℤ}
use audistro_provider.Go.Time.{Instant, is_zero, unix}
use audistro_provider.Repository.Db.{Db}
use audistro_provider.Repository.Assets.{count_active}

pub record JobsStatusSnapshot : Type 0 where
  pub jobs_enabled : Bool
  pub last_rescan_at : Instant
  pub last_announce_sweep_at : Instant
  pub deferred_announces_count : ℕ

-- The fixed texts of a response.
pub record ServiceInfo : Type 0 where
  pub service : Text
  pub version : Text
  pub region : Text
  pub public_base_url : Text
  pub provider_id : Text
  pub public_key : Text

pub record Response (Error : Type 0) : Type 0 where
  pub status : Text
  pub info : ServiceInfo
  pub time : Instant
  pub active_assets_count : Option ℕ
  pub warning : Text
  pub catalog_enabled : Bool
  pub catalog_last_error : Option Error
  pub metrics_enabled : Bool
  pub jobs_enabled : Bool
  pub last_rescan_at : Option ℤ
  pub last_announce_sweep_at : Option ℤ
  pub deferred_announces_count : ℕ

abbrev pub unix_or_none : Instant → Option ℤ
unix_or_none t = if is_zero t then none else some (unix t)

module _ {Error : Type 0} where
  abbrev initial : ServiceInfo → Instant → Response Error
  initial info now = record {
    status = codes "ok";
    info = info;
    time = now;
    active_assets_count = none;
    warning = [];
    catalog_enabled = false;
    catalog_last_error = none;
    metrics_enabled = true;
    jobs_enabled = false;
    last_rescan_at = none;
    last_announce_sweep_at = none;
    deferred_announces_count = 0;
  }

  abbrev with_count : Option ℕ → Response Error → Response Error
  with_count none resp = record resp { warning = codes "active_assets_count_unavailable" }
  with_count (some n) resp = record resp { active_assets_count = some n }

  abbrev with_catalog : Option (Bool × Option Error) → Response Error → Response Error
  with_catalog none resp = resp
  with_catalog (some (enabled, last_error)) resp = record resp {
    catalog_enabled = enabled;
    catalog_last_error = last_error;
  }

  abbrev with_jobs : Option JobsStatusSnapshot → Response Error → Response Error
  with_jobs none resp = resp
  with_jobs (some s) resp = record resp {
    jobs_enabled = s.jobs_enabled;
    deferred_announces_count = s.deferred_announces_count;
    last_rescan_at = unix_or_none s.last_rescan_at;
    last_announce_sweep_at = unix_or_none s.last_announce_sweep_at;
  }

  -- The handler of `Handler`, which counts the active assets of the database; the answer is 200.
  unfoldable pub handle_health :
      ServiceInfo
      → Option (Bool × Option Error)
      → Option JobsStatusSnapshot
      → Instant
      → Db
      → Response Error × Db
  handle_health info catalog jobs now db =
      let (count, db') = count_active db in
      (with_jobs jobs (with_catalog catalog (with_count count (initial info now))), db')

-- `ReadyHandler`: the status code, the status and the reason of an answer.
pub record ReadinessResponse : Type 0 where
  pub code : ℕ
  pub status : Text
  pub reason : Text

unfoldable pub ready_handler : Option Text → ReadinessResponse
ready_handler none = record { code = 200; status = codes "ready"; reason = [] }
ready_handler (some reason) = record { code = 503; status = codes "not_ready"; reason = reason }
