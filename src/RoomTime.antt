-- ===== src/RoomTime.antt =====
-- `src/db/room_time.rs`: the opening time of a room, with its change by an update request.
pub mod Update
use event.Base.{
  ◌≡◌, Bool, true, false, Option, none, some, if◌then◌else◌, Result, ok, err, ℤ, ltb_ℤ,
}

-- `DateTime<Utc>`: nanoseconds since the epoch.
abbrev pub DateTime : Type 0
DateTime = ℤ

-- `std::ops::Bound`.
pub data Bound (A : Type 0) : Type 0 where
  included : A → Bound A
  excluded : A → Bound A
  unbounded : Bound A

abbrev pub BoundedDateTimeTuple : Type 0
BoundedDateTimeTuple = Bound DateTime × Bound DateTime

-- `RoomTimeBound`.
pub data RoomTimeBound : Type 0 where
  excluded : DateTime → RoomTimeBound
  unbounded : RoomTimeBound

pub record RoomTime : Type 0 where
  pub start : DateTime
  pub end : RoomTimeBound

-- `From<RoomTimeBound> for Bound`.
unfoldable pub into_bound : RoomTimeBound → Bound DateTime
into_bound (RoomTimeBound.excluded dt) = Bound.excluded dt
into_bound RoomTimeBound.unbounded = Bound.unbounded

unfoldable pub new : BoundedDateTimeTuple → Option RoomTime
new (Bound.included start, Bound.excluded end) =
    if ltb_ℤ start end
    then some (record { start = start; end = RoomTimeBound.excluded end })
    else none
new (Bound.included start, Bound.unbounded) =
    some (record { start = start; end = RoomTimeBound.unbounded })
new _ = none

-- The last `match` of `update`, on the end that was asked for.
abbrev clip_end : DateTime → RoomTimeBound → RoomTimeBound
clip_end now (RoomTimeBound.excluded e) =
    if ltb_ℤ now e then RoomTimeBound.excluded e else RoomTimeBound.excluded now
clip_end now RoomTimeBound.unbounded = RoomTimeBound.unbounded

-- The guard `*e < now` on the end of the room.
abbrev pub has_ended : DateTime → RoomTimeBound → Bool
has_ended now (RoomTimeBound.excluded e) = ltb_ℤ e now
has_ended now RoomTimeBound.unbounded = false

unfoldable pub update_to : DateTime → RoomTime → RoomTime → Option RoomTime
update_to now self asked =
    if ltb_ℤ now self.start
    then some asked
    else if has_ended now self.end
    then none
    else some (record { start = self.start; end = clip_end now asked.end })

-- `RoomTime::update`; the clock `Utc::now()` is read once, and is an argument.
unfoldable pub update : DateTime → RoomTime → BoundedDateTimeTuple → Option RoomTime
unfolding new update_to
update now self tuple = elim (new tuple) [ none ↦ none | some asked ↦ update_to now self asked ]

-- `From<RoomTime> for BoundedDateTimeTuple`.
unfoldable pub into_tuple : RoomTime → BoundedDateTimeTuple
unfolding into_bound
into_tuple time = (Bound.included time.start, into_bound time.end)

pub data TimeError : Type 0 where
  invalid_room_time : BoundedDateTimeTuple → TimeError

-- `TryFrom<BoundedDateTimeTuple> for RoomTime`.
unfoldable pub try_from : BoundedDateTimeTuple → Result TimeError RoomTime
unfolding new
try_from t = elim (new t) [ some rt ↦ ok rt | none ↦ err (invalid_room_time t) ]
