-- ===== src/Db.antt =====
-- The rows of the database (`src/db/`).
pub mod Event
pub mod Change
pub mod Room
pub mod Adjustment
pub mod Rows
pub mod Session
pub mod Queries
pub mod Schema
use event.Base.{ℕ, String}

-- `Uuid`: compared and passed on, nothing else.
abbrev pub Uuid : Type 0
Uuid = ℕ

-- `AgentId` and `AccountId` in their text form.
abbrev pub AgentId : Type 0
AgentId = String

abbrev pub AccountId : Type 0
AccountId = String
