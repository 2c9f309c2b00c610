-- ===== src/Db/Schema.antt =====
-- `src/db/event/schema.rs`: the drawings of a whiteboard and their compact form.
pub mod Enums
pub mod Records
pub mod Float
pub mod Vector
pub mod Other
pub mod PathEvent
pub mod Compact
