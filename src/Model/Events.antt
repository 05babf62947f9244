-- ===== src/Model/Events.antt =====
-- internal/model/events.go: an event of a service. Its data, a map of any values, is not read.
use elnssm.Common.{ℕ, String}
use elnssm.Model.Enums.{EventType}

pub record Event : Type 0 where
  pub id : String
  pub type : EventType
  pub service_id : String
  pub timestamp : ℕ
  pub message : String
