-- ===== src/AdjustRoom.antt =====
-- `src/app/operations/adjust_room.rs` and `src/app/operations/adjust_room/intersect.rs`.
pub mod Intersect
pub mod Invert
pub mod Cuts
pub mod CloneEvents
pub mod Breaks
pub mod Call
