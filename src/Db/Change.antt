-- ===== src/Db/Change.antt =====
-- `ChangeType` and `Object` of `src/db/change.rs`: one change of an edition. `V` is
-- `serde_json::Value`.
pub mod Queries
use event.Base.{ℤ, Option, String}
use event.Db.{Uuid, AgentId}
use event.RoomTime.{DateTime}

pub data ChangeType : Type 0 where
  addition modification removal bulk_removal : ChangeType

pub record Object (V : Type 0) : Type 0 where
  pub id : Uuid
  pub edition_id : Uuid
  pub kind : ChangeType
  pub event_id : Option Uuid
  pub event_kind : Option String
  pub event_set : Option String
  pub event_label : Option String
  pub event_data : Option V
  pub event_occurred_at : Option ℤ
  pub event_created_by : Option AgentId
  pub created_at : DateTime
