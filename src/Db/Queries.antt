-- ===== src/Db/Queries.antt =====
-- The queries of `src/db/` as statements on the tables. `V` is `serde_json::Value`, `B` is
-- `CompactEvent`; `wrap` is the conversion of an `sqlx::Error` by the caller.
pub mod Laws
use event.Base.{
  ℕ, ℤ, Bool, true, false, ◌||◌, Option, none, some, List, [], ◌∷◌, ◌++◌, Result, ok, err, String,
  ◌==◌, is_none, if◌then◌else◌,
}
use event.Db.{Uuid}
use event.Db.Adjustment
use event.Db.Change
use event.Db.Change.Queries as ChangeQueries
use event.Db.Event
use event.Db.Event.Insert as EventInsert
use event.Db.Event.Queries.{ListQuery, list_events, delete_events}
use event.Db.Event.Raw.{RawObject, DecodeError, from_raw}
use event.Db.Event.Stored.{stored_row, has_content}
use event.Db.Room
use event.Db.Room.Queries as RoomQueries
use event.RoomTime.{DateTime}
use event.Db.Session.{Tables, Session, World, Task, Statement, ◌>>=◌, done, bail, lift, statement}

-- `sqlx::Error`, as far as the callers can meet it.
pub data QueryError : Type 0 where
  refused violates_constraint row_not_found : QueryError
  decode : DecodeError → QueryError

abbrev pub from_decoded : {E A : Type 0} → (QueryError → E) → Result DecodeError A → Result E A
from_decoded wrap (ok a) = ok a
from_decoded wrap (err e) = err (wrap (decode e))

abbrev pub is_adjusted : Uuid → List Adjustment.Object → Bool
is_adjusted room_id [] = false
is_adjusted room_id (a ∷ as') = (a.room_id == room_id) || is_adjusted room_id as'

abbrev pub adjustment_row : DateTime → Uuid → DateTime → Adjustment.Segments → ℤ → Adjustment.Object
adjustment_row now room_id started_at segments offset = record {
  room_id = room_id;
  started_at = started_at;
  segments = segments;
  offset = offset;
  created_at = now;
}

module _ {E V B : Type 0} (wrap : QueryError → E) where
  -- `InsertQuery::execute` of rooms.
  unfoldable pub room_statement : RoomQueries.InsertQuery V → Statement E V B (Room.Object V)
  room_statement q ids now t =
      if RoomQueries.is_range q.time
      then ok (
        RoomQueries.inserted_room (ids 0) now q,
        record t { rooms = t.rooms ++ RoomQueries.inserted_room (ids 0) now q ∷ [] },
      )
      else err (wrap violates_constraint)

  unfoldable pub insert_room : RoomQueries.InsertQuery V → Task E V B (Room.Object V)
  unfolding room_statement
  insert_room q = statement (wrap refused) (room_statement q)

  -- `UpdateQuery::execute` of rooms.
  unfoldable pub update_statement : RoomQueries.UpdateQuery V → Statement E V B (Room.Object V)
  unfolding RoomQueries.update_rooms
  update_statement q ids now t = elim (RoomQueries.find_room q.id t.rooms) [
    | none ↦ err (wrap row_not_found)
    | some room ↦
        if RoomQueries.is_range (RoomQueries.updated_room q room).time
        then ok (
          RoomQueries.updated_room q room,
          record t { rooms = RoomQueries.update_rooms q t.rooms },
        )
        else err (wrap violates_constraint)
  ]

  unfoldable pub update_room : RoomQueries.UpdateQuery V → Task E V B (Room.Object V)
  unfolding update_statement
  update_room q = statement (wrap refused) (update_statement q)

  -- `InsertQuery::execute` of adjustments, of which a room has one at most.
  unfoldable pub adjustment_statement :
      Uuid → DateTime → Adjustment.Segments → ℤ → Statement E V B Adjustment.Object
  adjustment_statement room_id started_at segments offset ids now t =
      let row = adjustment_row now room_id started_at segments offset in
      if is_adjusted room_id t.adjustments
      then err (wrap violates_constraint)
      else ok (row, record t { adjustments = t.adjustments ++ row ∷ [] })

  unfoldable pub insert_adjustment :
      Uuid → DateTime → Adjustment.Segments → ℤ → Task E V B Adjustment.Object
  unfolding adjustment_statement
  insert_adjustment room_id started_at segments offset =
      statement (wrap refused) (adjustment_statement room_id started_at segments offset)

  -- The `INSERT` of events.
  unfoldable pub event_statement : EventInsert.InsertQuery V B → Statement E V B (RawObject V B)
  unfolding stored_row
  event_statement q ids now t =
      let row = stored_row (ids 0) now t.events q in
      if has_content q.content q.binary_data
      then ok (row, record t { events = t.events ++ row ∷ [] })
      else err (wrap violates_constraint)

  -- `InsertQuery::execute` of events.
  unfoldable pub insert_event :
      (B → Option V) → EventInsert.InsertQuery V B → Task E V B (Event.Object V)
  unfolding event_statement
  insert_event into_json q = statement (wrap refused) (event_statement q) >>= λ raw.
      lift (from_decoded wrap (from_raw into_json raw))

  -- A query that reads.
  unfoldable pub read : {A : Type 0} → (Tables V B → Result E A) → Task E V B A
  read f = statement (wrap refused) (λ ids now t. elim (f t) [ ok a ↦ ok (a, t) | err e ↦ err e ])

  -- `ListQuery::execute` of events.
  unfoldable pub events_of : (B → Option V) → ListQuery → Task E V B (List (Event.Object V))
  unfolding read list_events
  events_of into_json q = read (λ t. from_decoded wrap (list_events into_json q t.events))

  -- `ListQuery::execute` of changes.
  unfoldable pub changes_of : ChangeQueries.ListQuery → Task E V B (List (Change.Object V))
  unfolding read
  changes_of q = read (λ t. ok (ChangeQueries.list_changes q t.changes))

  -- `DeleteQuery::execute` of events.
  unfoldable pub delete_kind : Uuid → String → Task E V B Unit
  unfolding delete_events
  delete_kind room_id kind =
      statement (wrap refused)
        (λ ids now t. ok (tt, record t { events = delete_events room_id kind t.events }))
