-- ===== src/CommitEdition/Call.antt =====
-- `call` and `clone_room` of `src/app/operations/commit_edition.rs`: the commit of an edition, in
-- one transaction.
pub mod Steps
pub mod Copies
use event.Base.{
  ℕ, ℤ, pos, ◌+ℤ◌, ◌-ℤ◌, ◌*ℤ◌, Bool, false, Option, none, some, List, [], ◌∷◌, map, Result, ok, err,
  String,
}
use event.Base.Word.{wrap_i64, div_trunc}
use event.Db.{Uuid}
use event.Db.Adjustment.{Segments}
use event.Db.Change
use event.Db.Change.Queries as ChangeQueries
use event.Db.Event
use event.Db.Event.Insert.{InsertQuery}
use event.Db.Event.Queries.{ListQuery, single, list_of_room}
use event.Db.Event.Stored.{store_rows}
use event.Db.Queries.{QueryError, refused, insert_room, events_of, changes_of, delete_kind}
use event.Db.Room
use event.Db.Room.Queries as RoomQueries
use event.Db.Session.{
  Tables, Session, World, Task, Statement, ◌>>=◌, ◌>>◌, done, bail, lift, statement, atomically,
}
use event.RoomTime.{DateTime, Bound, RoomTimeBound, RoomTime, TimeError, try_from, into_tuple}
use event.Ranges.{Range}
use event.Base.Json.{Json}
use event.AdjustRoom.Invert.{invert_segments}
use event.AdjustRoom.Call.{nanoseconds_in_millisecond, in_milliseconds, stream_events}
use event.CommitEdition.CollectGaps.{GapsError, collect_gaps}
use event.CommitEdition.CloneEvents.{clone_events}
use event.CommitEdition.CloneEvents.Insert.{CommitError, NewRow}

-- The errors of `call`.
pub data CallError : Type 0 where
  query_failed : QueryError → CallError
  cloning_failed : CommitError → CallError
  no_gaps : GapsError → CallError
  invalid_duration invalid_time : Uuid → CallError

-- The `match` on the end of the room's time.
abbrev pub duration_to_end : Uuid → RoomTime → RoomTimeBound → Result CallError ℤ
duration_to_end room_id time (RoomTimeBound.excluded stop) = ok (stop -ℤ time.start)
duration_to_end room_id time RoomTimeBound.unbounded = err (invalid_duration room_id)

abbrev pub duration_of_time : Uuid → Result TimeError RoomTime → Result CallError ℤ
duration_of_time room_id (ok time) = duration_to_end room_id time time.end
duration_of_time room_id (err e) = err (invalid_duration room_id)

-- `room_duration`.
unfoldable pub room_duration : {V : Type 0} → Room.Object V → Result CallError ℤ
unfolding try_from
room_duration source = duration_of_time source.id (try_from source.time)

abbrev pub wrap_gaps : {A : Type 0} → Result GapsError A → Result CallError A
wrap_gaps (ok a) = ok a
wrap_gaps (err e) = err (no_gaps e)

-- The stream events of an edition.
abbrev pub stream_changes : Uuid → ChangeQueries.ListQuery
stream_changes edition_id = record (ChangeQueries.changes_of edition_id) { kind = some "stream" }

-- The columns that the `INSERT` leaves out are `NULL`, and `removed` is false.
abbrev pub columns_of : {V B : Type 0} → NewRow V B → InsertQuery V B
columns_of row = record {
  room_id = row.room_id;
  kind = row.kind;
  set = row.set;
  label = row.label;
  attribute = none;
  content = row.content;
  binary_data = row.binary_data;
  occurred_at = row.occurred_at;
  created_by = row.created_by;
  created_at = some row.created_at;
  removed = false;
  entity_type = none;
  entity_event_id = none;
}

-- The query of `clone_room`.
abbrev pub room_query : {V : Type 0} → Room.Object V → RoomTime → RoomQueries.InsertQuery V
room_query source time =
    record (RoomQueries.new_query source.audience (into_tuple time) source.classroom_id
      source.kind) { source_room_id = some source.id; tags = source.tags }

module _ {V B : Type 0} where
  abbrev pub insert_copy :
      Room.Object V → Result TimeError RoomTime → Task CallError V B (Room.Object V)
  insert_copy source (ok time) = insert_room query_failed (room_query source time)
  insert_copy source (err e) = bail (invalid_time source.id)

  unfoldable pub clone_room : Room.Object V → Task CallError V B (Room.Object V)
  unfolding try_from insert_room
  clone_room source = insert_copy source (try_from source.time)

  abbrev pub with_rows :
      (ℕ → Uuid)
      → DateTime
      → Tables V B
      → Result {0} CommitError (List (NewRow V B))
      → Result {0} CallError (Unit × Tables V B)
  with_rows ids now t (ok rows) =
      ok (tt, record t { events = store_rows ids 0 now t.events (map columns_of rows) })
  with_rows ids now t (err e) = err (cloning_failed e)

  -- The statement of `clone_events`.
  unfoldable pub clone_statement :
      Uuid → Uuid → Uuid → List Range → ℤ → Statement CallError V B Unit
  unfolding clone_events store_rows
  clone_statement source_id destination_id edition_id gaps offset ids now t =
      with_rows ids now t
        (clone_events now source_id destination_id edition_id t.events t.changes gaps offset)

  -- `clone_events`.
  unfoldable pub clone_gaps : Uuid → Uuid → Uuid → List Range → ℤ → Task CallError V B Unit
  unfolding clone_statement
  clone_gaps source_id destination_id edition_id gaps offset =
      statement (query_failed refused)
        (clone_statement source_id destination_id edition_id gaps offset)

  -- What is done with the gaps.
  unfoldable pub copy_room :
      ℕ → Room.Object V → Uuid → ℤ → ℤ → List Range → Task CallError V B (Room.Object V × Segments)
  unfolding clone_room clone_gaps delete_kind invert_segments
  copy_room min_segment_length source edition_id offset duration cut_gaps =
      clone_room source >>= λ destination.
      clone_gaps source.id destination.id edition_id cut_gaps
        (wrap_i64 (offset *ℤ pos nanoseconds_in_millisecond))
      >>= λ _. delete_kind query_failed destination.id "stream" >>= λ _.
          done (
            destination,
            map in_milliseconds (invert_segments cut_gaps duration min_segment_length),
          )

module _ {V B : Type 0} ⦃j : Json V⦄ (into_json : B → Option V) where
  -- The statements between `begin` and `commit`.
  unfoldable pub in_transaction :
      ℕ → Room.Object V → Uuid → ℤ → Task CallError V B (Room.Object V × Segments)
  unfolding room_duration events_of changes_of collect_gaps copy_room
  in_transaction min_segment_length source edition_id offset =
      lift (room_duration source) >>= λ duration.
      events_of query_failed into_json (stream_events source.id) >>= λ cut_events.
      changes_of query_failed (stream_changes edition_id) >>= λ cut_changes.
      lift (wrap_gaps (collect_gaps cut_events cut_changes)) >>= λ cut_gaps.
      copy_room min_segment_length source edition_id offset duration cut_gaps

  unfoldable pub call : ℕ → Room.Object V → Uuid → ℤ → Task CallError V B (Room.Object V × Segments)
  unfolding in_transaction atomically
  call min_segment_length source edition_id offset =
      atomically (query_failed refused) (in_transaction min_segment_length source edition_id offset)
