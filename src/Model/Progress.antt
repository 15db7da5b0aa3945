-- ===== src/Model/Progress.antt =====
-- Progress events (model.go, `CheckEvent`).
use orynelo.Prelude.{ℕ, String, Option, Bool, ◌==◌, number_equality, ◌&&◌, not}
use orynelo.Model.Outcomes.{Status}
use orynelo.Model.Records.{CheckResult}

pub data CheckEventType : Type 0 where
  run_started check_started check_completed run_completed delivery_overflow : CheckEventType

pub record CheckEvent : Type 0 where
  pub type : CheckEventType
  pub check_id : String
  pub check_name : String
  pub status : Status
  pub at : ℕ
  pub index : ℕ
  pub result : Option CheckResult
  pub dropped_events : ℕ

pub record EventDeliveryStats : Type 0 where
  pub dropped : ℕ
  pub consumer_panics : ℕ
  pub drain_timed_out : Bool

-- `Empty`
unfoldable pub is_empty : EventDeliveryStats → Bool
is_empty stats = stats.dropped == 0 && stats.consumer_panics == 0 && not stats.drain_timed_out
