-- ===== src/Db/Adjustment.antt =====
-- `Object` and `Segments` of `src/db/adjustment.rs`: the adjustment of a room, kept with the
-- segments of its recording in milliseconds.
use event.Base.{ℤ, List}
use event.Db.{Uuid}
use event.RoomTime.{DateTime, Bound}

abbrev pub Segments : Type 0
Segments = List (Bound ℤ × Bound ℤ)

pub record Object : Type 0 where
  pub room_id : Uuid
  pub started_at : DateTime
  pub segments : Segments
  pub offset : ℤ
  pub created_at : DateTime
