-- ===== src/AdjustRoom/Call.antt =====
-- `call`, `create_room` and `clone_events` of `src/app/operations/adjust_room.rs`: the steps of the
-- adjustment of a room as statements on the tables. Only the insertion of stream events is a
-- transaction. Here the parts that compute; Rooms and Run have the statements.
pub mod Rooms
pub mod Run
pub mod Adjusted
pub mod Kept
pub mod Derived
pub mod Outcome
use event.Base.{
  ℕ, ℤ, pos, ◌+ℤ◌, ◌-ℤ◌, ◌*ℤ◌, max_ℤ, Bool, true, false, Option, none, some, is_none, List, [], ◌∷◌,
  map, Result, ok, err, String,
}
use event.Base.Json.{Json}
use event.Base.Word.{wrap_i64, div_trunc}
use event.Db.{Uuid}
use event.Db.Adjustment.{Segments}
use event.Db.Event
use event.Db.Event.Insert.{InsertQuery}
use event.Db.Event.Queries.{ListQuery, single, multiple, list_of_room}
use event.Db.Event.Raw.{RawObject}
use event.Db.Event.Stored.{store_rows}
use event.Db.Queries.{
  QueryError, refused, read, insert_room, update_room, insert_adjustment, insert_event, events_of,
  delete_kind,
}
use event.Db.Room
use event.Db.Room.Queries as RoomQueries
use event.Db.Session.{
  Tables, Session, World, Task, Statement, ◌>>=◌, done, bail, lift, statement, atomically,
}
use event.RoomTime.{
  DateTime, Bound, BoundedDateTimeTuple, RoomTimeBound, RoomTime, TimeError, try_from, into_tuple,
  update,
}
use event.Ranges.{Range}
use event.AdjustRoom.Breaks.{insert_queries}
use event.AdjustRoom.CloneEvents.{CloneError, Row, clone_events}
use event.AdjustRoom.Cuts.{CutError, cut_events_to_gaps}
use event.AdjustRoom.Intersect.{intersect}
use event.AdjustRoom.Invert.{invert_segments}

abbrev pub nanoseconds_in_millisecond : ℕ
nanoseconds_in_millisecond = 1000000

-- The errors of `call`; `panics` stands for `parsed_segments.last().unwrap()` on no segments.
pub data CallError : Type 0 where
  query_failed : QueryError → CallError
  cloning_failed : CloneError → CallError
  invalid_cut : CutError → CallError
  invalid_segment : Bound ℤ × Bound ℤ → CallError
  invalid_time invalid_time_update invalid_duration : Uuid → CallError
  invalid_drawing panics : CallError

pub record AdjustOutput (V : Type 0) : Type 0 where
  pub original_room : Room.Object V
  pub modified_room : Room.Object V
  pub modified_segments : Segments
  pub cut_original_segments : Segments

abbrev pub parse_segment : Bound ℤ × Bound ℤ → Result {0} CallError Range
parse_segment (Bound.included start, Bound.excluded stop) = ok (start, stop)
parse_segment segment = err (invalid_segment segment)

-- `parsed_segments`.
unfoldable pub parse_segments : Segments → Result {0} CallError (List Range)
parse_segments [] = ok []
parse_segments (segment ∷ segments) = elim (parse_segment segment) [
  | err e ↦ err e
  | ok range ↦ elim (parse_segments segments) [ err e ↦ err e | ok ranges ↦ ok (range ∷ ranges) ]
]

abbrev pub wrap_time : Uuid → Result {0} TimeError RoomTime → Result {0} CallError RoomTime
wrap_time room_id (ok time) = ok time
wrap_time room_id (err e) = err (invalid_time room_id)

abbrev pub wrap_cuts : Result {0} CutError (List Range) → Result {0} CallError (List Range)
wrap_cuts (ok gaps) = ok gaps
wrap_cuts (err e) = err (invalid_cut e)

-- `room_opening` and `room_duration`.
abbrev pub opening_and_duration :
    Uuid → RoomTime → RoomTimeBound → Result {0} CallError (DateTime × ℤ)
opening_and_duration room_id time (RoomTimeBound.excluded stop) =
    ok (time.start, stop -ℤ time.start)
opening_and_duration room_id time RoomTimeBound.unbounded = err (invalid_duration room_id)

-- `rtc_offset`, in milliseconds.
unfoldable pub rtc_offset : DateTime → DateTime → ℤ
rtc_offset started_at room_opening =
    div_trunc (started_at -ℤ room_opening) nanoseconds_in_millisecond

abbrev pub to_nanoseconds : ℤ → ℤ
to_nanoseconds millis = wrap_i64 (millis *ℤ pos nanoseconds_in_millisecond)

-- `nano_segments`.
unfoldable pub nano_segments : ℤ → List Range → List Range
nano_segments rtc [] = []
nano_segments rtc ((start, stop) ∷ segments) =
    (to_nanoseconds (wrap_i64 (start +ℤ rtc)), to_nanoseconds (wrap_i64 (stop +ℤ rtc)))
    ∷ nano_segments rtc segments

-- `parsed_segments.last().unwrap().1`.
unfoldable pub finish : List Range → Result {0} CallError ℤ
finish [] = err panics
finish ((start, stop) ∷ []) = ok stop
finish (segment ∷ next ∷ segments) = finish (next ∷ segments)

-- `fold(0, |acc, (start, stop)| acc + (stop - start))`.
unfoldable pub total_millis : ℤ → List Range → ℤ
total_millis acc [] = acc
total_millis acc ((start, stop) ∷ segments) =
    total_millis (wrap_i64 (acc +ℤ wrap_i64 (stop -ℤ start))) segments

-- `Duration::milliseconds`.
abbrev pub milliseconds : ℤ → ℤ
milliseconds n = n *ℤ pos nanoseconds_in_millisecond

-- The two loops that take `rtc_offset * NANOSECONDS_IN_MILLISECOND` off.
unfoldable pub shift_back : ℤ → List Range → List Range
shift_back rtc [] = []
shift_back rtc ((start, stop) ∷ ranges) =
    (wrap_i64 (start -ℤ to_nanoseconds rtc), wrap_i64 (stop -ℤ to_nanoseconds rtc))
    ∷ shift_back rtc ranges

abbrev pub in_milliseconds : Range → Bound ℤ × Bound ℤ
in_milliseconds (start, stop) = (
  Bound.included (div_trunc start nanoseconds_in_millisecond),
  Bound.excluded (div_trunc stop nanoseconds_in_millisecond),
)

-- The same with `cmp::max(…, 0)` of the start.
abbrev pub in_milliseconds_from_zero : Range → Bound ℤ × Bound ℤ
in_milliseconds_from_zero (start, stop) = (
  Bound.included (max_ℤ (div_trunc start nanoseconds_in_millisecond) (pos 0)),
  Bound.excluded (div_trunc stop nanoseconds_in_millisecond),
)

-- `cut_original_segments`, of the cut gaps of the room.
unfoldable pub cut_segments : ℕ → ℤ → ℤ → List Range → List Range → Segments
unfolding shift_back intersect invert_segments
cut_segments min_segment_length rtc segments_finish nanos cut_gaps = map in_milliseconds (
    intersect
      (invert_segments (shift_back rtc cut_gaps) (milliseconds segments_finish) min_segment_length)
      (shift_back rtc nanos))

-- `modified_segments`.
unfoldable pub kept_segments : ℕ → ℤ → List Range → Segments
unfolding invert_segments
kept_segments min_segment_length duration cut_gaps =
    map in_milliseconds_from_zero (invert_segments cut_gaps duration min_segment_length)

-- The stream events of a room.
abbrev pub stream_events : Uuid → ListQuery
stream_events room_id = record (list_of_room room_id) { kind = some (single "stream") }

abbrev pub break_events : Uuid → ListQuery
break_events room_id = record (list_of_room room_id) {
  kind = some (multiple ("break" ∷ "video_group" ∷ []));
}
