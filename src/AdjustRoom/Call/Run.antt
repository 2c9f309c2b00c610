-- ===== src/AdjustRoom/Call/Run.antt =====
-- `call` of `src/app/operations/adjust_room.rs`, step by step. `start_timestamp` and `clock` are its
-- two readings of the clock.
use event.Base.{ℕ, ℤ, pos, Option, none, some, List, [], ◌∷◌, ok}
use event.Base.Json.{Json}
use event.Db.{Uuid}
use event.Db.Adjustment.{Segments}
use event.Db.Event.Insert.{InsertQuery}
use event.Db.Queries.{
  refused, read, update_room, insert_adjustment, insert_event, events_of, delete_kind,
}
use event.Db.Room
use event.Db.Room.Queries as RoomQueries
use event.Db.Session.{Task, ◌>>=◌, done, bail, lift, atomically}
use event.RoomTime.{DateTime, Bound, RoomTimeBound, RoomTime, try_from, into_tuple, update}
use event.Ranges.{Range}
use event.AdjustRoom.Breaks.{insert_queries}
use event.AdjustRoom.Cuts.{cut_events_to_gaps}
use event.AdjustRoom.Invert.{invert_segments}
use event.AdjustRoom.Call.{
  CallError, query_failed, invalid_drawing, invalid_time_update, AdjustOutput, parse_segments,
  wrap_time, wrap_cuts, opening_and_duration, rtc_offset, to_nanoseconds, nano_segments, finish,
  total_millis, milliseconds, cut_segments, kept_segments, stream_events, break_events,
}
use event.AdjustRoom.Call.Rooms.{create_room, clone_gaps}

-- The query on the time of the room.
abbrev pub time_query : {V : Type 0} → Uuid → RoomTime → RoomQueries.UpdateQuery V
time_query room_id time = record (RoomQueries.update_of room_id) { time = some (into_tuple time) }

module _ {V B : Type 0} where
  abbrev pub store_time : Uuid → Option RoomTime → Task CallError V B RoomTime
  store_time room_id none = bail (invalid_time_update room_id)
  store_time room_id (some new_time) =
      update_room query_failed (time_query room_id new_time) >>= λ _. done new_time

  -- `real_time_room_new_time`.
  abbrev pub close_time :
      DateTime → DateTime → Uuid → RoomTime → RoomTimeBound → Task CallError V B RoomTime
  close_time start_timestamp clock room_id time RoomTimeBound.unbounded =
      store_time room_id
        (update clock time (Bound.included time.start, Bound.excluded start_timestamp))
  close_time start_timestamp clock room_id time (RoomTimeBound.excluded stop) = done time

  -- From the acquisition of a connection to the insertion of the adjustment.
  unfoldable pub record_adjustment :
      DateTime → DateTime → Room.Object V → DateTime → Segments → ℤ → Task CallError V B RoomTime
  unfolding try_from update into_tuple read update_room insert_adjustment
  record_adjustment start_timestamp clock room started_at segments offset =
      read query_failed (λ t. ok tt) >>= λ _.
      lift (wrap_time room.id (try_from room.time)) >>= λ time.
      close_time start_timestamp clock room.id time time.end >>= λ new_time.
      insert_adjustment query_failed room.id started_at segments offset >>= λ _. done new_time

  -- `create_room`, then `clone_events`.
  unfoldable pub copy_room :
      Room.Object V → DateTime → ℤ → List Range → ℤ → Task CallError V B (Room.Object V)
  unfolding create_room clone_gaps
  copy_room source started_at duration gaps offset =
      create_room source started_at duration >>= λ room.
      clone_gaps room gaps offset >>= λ _. done room

  -- The modified room, whose stream events are deleted.
  unfoldable pub modify_room :
      Room.Object V → DateTime → ℤ → List Range → ℤ → Task CallError V B (Room.Object V)
  unfolding copy_room delete_kind
  modify_room original_room started_at duration cut_gaps offset =
      copy_room original_room started_at duration cut_gaps (to_nanoseconds offset)
      >>= λ modified_room.
          delete_kind query_failed modified_room.id "stream" >>= λ _. done modified_room

module _ {V B : Type 0} ⦃j : Json V⦄ (from_json : V → Option B) (into_json : B → Option V) where
  -- The loop over the queries of stream events.
  unfoldable pub insert_all : List (InsertQuery V B) → Task CallError V B Unit
  unfolding insert_event
  insert_all [] = done tt
  insert_all (q ∷ qs) = insert_event query_failed into_json q >>= λ _. insert_all qs

  -- `if !insert_queries.is_empty()`.
  abbrev pub insert_cuts : Option (List (InsertQuery V B)) → Task CallError V B Unit
  insert_cuts none = bail invalid_drawing
  insert_cuts (some []) = done tt
  insert_cuts (some (q ∷ qs)) = atomically (query_failed refused) (insert_all (q ∷ qs))

  -- The stream events of breaks and video groups.
  unfoldable pub cut_breaks : Uuid → Task CallError V B Unit
  unfolding insert_queries events_of atomically insert_all
  cut_breaks room_id = events_of query_failed into_json (break_events room_id) >>= λ events.
      insert_cuts (insert_queries from_json room_id events)

  -- The gaps of the cut events of a room.
  unfoldable pub cuts_of : Uuid → Task CallError V B (List Range)
  unfolding events_of cut_events_to_gaps
  cuts_of room_id = events_of query_failed into_json (stream_events room_id) >>= λ cut_events.
      lift (wrap_cuts (cut_events_to_gaps cut_events))

  -- From the opening time of the room to the end, for a recording of this length.
  unfoldable pub adjust :
      ℕ
      → Room.Object V
      → DateTime
      → List Range
      → ℤ
      → DateTime
      → ℤ
      → ℤ
      → Task CallError V B (AdjustOutput V)
  unfolding rtc_offset nano_segments total_millis invert_segments cuts_of copy_room modify_room
      cut_segments kept_segments
  adjust min_segment_length room started_at segments offset room_opening room_duration
        segments_finish =
      let rtc = rtc_offset started_at room_opening in
      let nanos = nano_segments rtc segments in
      let duration = milliseconds (total_millis (pos 0) segments) in
      copy_room room started_at duration (invert_segments nanos room_duration min_segment_length)
        (pos 0)
      >>= λ original_room. cuts_of original_room.id >>= λ cut_gaps. cuts_of room.id >>= λ room_gaps.
          modify_room original_room started_at duration cut_gaps offset >>= λ modified_room.
          done (record {
            original_room = original_room;
            modified_room = modified_room;
            modified_segments = kept_segments min_segment_length duration cut_gaps;
            cut_original_segments =
                cut_segments min_segment_length rtc segments_finish nanos room_gaps;
          })

  -- What is computed from the time and the segments first.
  unfoldable pub adjust_from :
      ℕ → Room.Object V → DateTime → List Range → ℤ → RoomTime → Task CallError V B (AdjustOutput V)
  unfolding finish adjust
  adjust_from min_segment_length room started_at segments offset time =
      lift (opening_and_duration room.id time time.end) >>= λ opening.
      lift (finish segments) >>= λ segments_finish.
      adjust min_segment_length room started_at segments offset opening.0 opening.1 segments_finish

  unfoldable pub call :
      ℕ
      → DateTime
      → DateTime
      → Room.Object V
      → DateTime
      → Segments
      → ℤ
      → Task CallError V B (AdjustOutput V)
  unfolding parse_segments record_adjustment cut_breaks adjust_from
  call min_segment_length start_timestamp clock room started_at segments offset =
      lift (parse_segments segments) >>= λ parsed_segments.
      record_adjustment start_timestamp clock room started_at segments offset >>= λ time.
      cut_breaks room.id >>= λ _.
      adjust_from min_segment_length room started_at parsed_segments offset time
