-- ===== src/Catalog/HealthState.antt =====
-- internal/catalog/healthstate.go: the catalog's last error. The text of an error is the error itself,
-- and the empty text is none; the mutex makes each call one step.
use audistro_provider.Prelude.{Bool, Option, none}

pub record HealthState (Error : Type 0) : Type 0 where
  pub enabled : Bool
  pub last_err : Option Error

module _ {Error : Type 0} where
  unfoldable pub new_health_state : Bool → HealthState Error
  new_health_state enabled = record { enabled = enabled; last_err = none }

  unfoldable pub set : Option Error → HealthState Error → HealthState Error
  set err s = record s { last_err = err }

  unfoldable pub snapshot : HealthState Error → Bool × Option Error
  snapshot s = (s.enabled, s.last_err)
