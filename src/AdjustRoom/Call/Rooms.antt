-- ===== src/AdjustRoom/Call/Rooms.antt =====
-- `create_room` and `clone_events` of `src/app/operations/adjust_room.rs` as statements.
use event.Base.{ℕ, ℤ, ◌+ℤ◌, Option, none, some, List, map, Result, ok, err}
use event.Db.{Uuid}
use event.Db.Event
use event.Db.Event.Insert.{InsertQuery}
use event.Db.Event.Raw.{RawObject}
use event.Db.Event.Stored.{store_rows}
use event.Db.Queries.{refused, insert_room}
use event.Db.Room
use event.Db.Room.Queries as RoomQueries
use event.Db.Session.{Tables, Task, Statement, bail, statement}
use event.RoomTime.{DateTime, Bound}
use event.Ranges.{Range}
use event.AdjustRoom.CloneEvents.{CloneError, Row, clone_events}
use event.AdjustRoom.Call.{CallError, query_failed, cloning_failed}
use event.AdjustRoom.CloneEvents.{not_derived}

-- The query of `create_room`.
abbrev pub room_query : {V : Type 0} → Room.Object V → DateTime → ℤ → RoomQueries.InsertQuery V
room_query source_room started_at room_duration =
    record (RoomQueries.new_query source_room.audience
      (Bound.included started_at, Bound.excluded (started_at +ℤ room_duration))
      source_room.classroom_id source_room.kind) {
        source_room_id = some source_room.id;
        tags = source_room.tags;
      }

module _ {V B : Type 0} where
  unfoldable pub create_room : Room.Object V → DateTime → ℤ → Task CallError V B (Room.Object V)
  unfolding insert_room
  create_room source_room started_at room_duration =
      insert_room query_failed (room_query source_room started_at room_duration)

  -- A row with its two contents as one.
  abbrev pub with_contents : RawObject V B → Event.Object (Option V × Option B)
  with_contents e = record {
    id = e.id;
    room_id = e.room_id;
    kind = e.kind;
    set = e.set;
    label = e.label;
    attribute = e.attribute;
    content = (e.content, e.binary_data);
    occurred_at = e.occurred_at;
    created_by = e.created_by;
    created_at = e.created_at;
    deleted_at = e.deleted_at;
    original_occurred_at = e.original_occurred_at;
    original_created_by = e.original_created_by;
    removed = e.removed;
  }

  -- The columns of the `INSERT`.
  abbrev pub columns_of : Row (Option V × Option B) → InsertQuery V B
  columns_of row = record {
    room_id = row.room_id;
    kind = row.kind;
    set = row.set;
    label = row.label;
    attribute = row.attribute;
    content = (row.content).0;
    binary_data = (row.content).1;
    occurred_at = row.occurred_at;
    created_by = row.created_by;
    created_at = some row.created_at;
    removed = row.removed;
    entity_type = none;
    entity_event_id = none;
  }

  abbrev pub with_rows :
      (ℕ → Uuid)
      → DateTime
      → Tables V B
      → Result {0} CloneError (List (Row (Option V × Option B)))
      → Result {0} CallError (Unit × Tables V B)
  with_rows ids now t (ok rows) =
      ok (tt, record t { events = store_rows ids 0 now t.events (map columns_of rows) })
  with_rows ids now t (err e) = err (cloning_failed e)

  unfoldable pub clone_statement : Uuid → Uuid → List Range → ℤ → Statement CallError V B Unit
  unfolding clone_events store_rows
  clone_statement room_id source_room_id gaps offset ids now t =
      with_rows ids now t
        (clone_events room_id (some source_room_id) (map with_contents t.events) gaps offset)

  abbrev pub clone_from : Uuid → Option Uuid → List Range → ℤ → Task CallError V B Unit
  clone_from room_id none gaps offset = bail (cloning_failed (not_derived room_id))
  clone_from room_id (some source_room_id) gaps offset =
      statement (query_failed refused) (clone_statement room_id source_room_id gaps offset)

  -- `clone_events`.
  unfoldable pub clone_gaps : Room.Object V → List Range → ℤ → Task CallError V B Unit
  unfolding clone_statement statement
  clone_gaps room gaps offset = clone_from room.id room.source_room_id gaps offset
