-- ===== src/Db/Event.antt =====
-- `Object` of `src/db/event/mod.rs`: one event of a room. `V` is `serde_json::Value`.
pub mod Raw
pub mod Insert
pub mod Queries
pub mod SetState
pub mod Vacuum
pub mod Stored
use event.Base.{ℤ, Bool, Option, String}
use event.Db.{Uuid, AgentId}
use event.RoomTime.{DateTime}

pub record Object (V : Type 0) : Type 0 where
  pub id : Uuid
  pub room_id : Uuid
  pub kind : String
  pub set : String
  pub label : Option String
  pub attribute : Option String
  pub content : V  -- `data`
  pub occurred_at : ℤ  -- `i64`, nanoseconds from the opening of the room
  pub created_by : AgentId
  pub created_at : DateTime
  pub deleted_at : Option DateTime
  pub original_occurred_at : ℤ
  pub original_created_by : AgentId
  pub removed : Bool
