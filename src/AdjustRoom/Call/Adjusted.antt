-- ===== src/AdjustRoom/Call/Adjusted.antt =====
-- A room is adjusted once (`call` of `src/app/operations/adjust_room.rs`).
use event.Base.{
  ◌≡◌, refl, ◌∙◌, ap, subst, ℕ, ℤ, true, Bool-cases, inl, inr, Option, none, some, List, [], ◌∷◌,
  ok, err, ◌==◌,
}
use event.Base.Json.{Json}
use event.Db.{Uuid}
use event.Db.Adjustment.{Segments}
use event.Db.Room
use event.Db.Room.Queries as RoomQueries
use event.Db.Session.{Tables, Session, World, lift, done}
use event.Db.Session.Laws.{Keeps, >>=-Keeps, statement-Keeps}
use event.Db.Session.Failing.{Fails, >>=-Fails, >>=-Fails_after, statement-Fails}
use event.Db.Queries.Laws.{ok_parts, read-Keeps}
use event.Db.Queries.{
  refused, violates_constraint, is_adjusted, read, update_room, update_statement, insert_adjustment,
  adjustment_statement,
}
use event.RoomTime.{DateTime, RoomTime, RoomTimeBound, try_from}
use event.AdjustRoom.Call.{CallError, query_failed, wrap_time, parse_segments}
use event.AdjustRoom.Call.Run.{call, record_adjustment, close_time, store_time, time_query}

abbrev pub room_ids : {V : Type 0} → List (Room.Object V) → List Uuid
room_ids [] = []
room_ids (room ∷ rooms) = room.id ∷ room_ids rooms

update_rooms-ids :
    {V : Type 0} (q : RoomQueries.UpdateQuery V) (rooms : List (Room.Object V))
    → room_ids (RoomQueries.update_rooms q rooms) ≡ room_ids rooms
unfolding RoomQueries.update_rooms RoomQueries.updated_room
update_rooms-ids q [] = refl
update_rooms-ids q (room ∷ rooms) = elim (Bool-cases (room.id == q.id)) [
  | inl h ↦ rw (RoomQueries.update_rooms, h) (ap (λ ids. room.id ∷ ids) (update_rooms-ids q rooms))
  | inr h ↦ rw (RoomQueries.update_rooms, h) (ap (λ ids. room.id ∷ ids) (update_rooms-ids q rooms))
]

module _ {V' B : Type 0} where
  -- The same rooms, whose times may differ, and the same events, changes and adjustments.
  abbrev pub SameBut : Tables V' B → Tables V' B → Type 0
  SameBut t t' =
      (room_ids t'.rooms ≡ room_ids t.rooms)
      × (t'.events ≡ t.events)
      × (t'.changes ≡ t.changes)
      × (t'.adjustments ≡ t.adjustments)

  update_statement-SameBut :
      (t0 t t' : Tables V' B) (q : RoomQueries.UpdateQuery V') (o : Option (Room.Object V'))
      (room : Room.Object V')
      → RoomQueries.find_room q.id t.rooms ≡ o
      → SameBut t0 t
      → (ids : ℕ → Uuid) (now : DateTime)
      → update_statement query_failed q ids now t ≡ ok (room, t')
      → SameBut t0 t'
  unfolding update_statement
  update_statement-SameBut t0 t t' q none room f h ids now k = cc (rw (update_statement, f) at k)
  update_statement-SameBut t0 t t' q (some found) room f (r, e, c, a) ids now k =
      elim (Bool-cases (RoomQueries.is_range (RoomQueries.updated_room q found).time)) [
        | inl b ↦
            subst (SameBut t0) (ok_parts (rw (update_statement, f, b) at k)).1
              (update_rooms-ids q t.rooms ∙ r, e, c, a)
        | inr b ↦ cc (rw (update_statement, f, b) at k)
      ]

  update_room-Keeps :
      (t0 : Tables V' B) (q : RoomQueries.UpdateQuery V')
      → Keeps (SameBut t0) (update_room query_failed q)
  unfolding update_room
  update_room-Keeps t0 q =
      statement-Keeps (SameBut t0) (query_failed refused) (update_statement query_failed q)
        (λ ids now t a t' h e.
          update_statement-SameBut t0 t t' q (RoomQueries.find_room q.id t.rooms) a refl h ids now
            e)

  store_time-Keeps :
      (t0 : Tables V' B) (room_id : Uuid) (o : Option RoomTime)
      → Keeps (SameBut t0) (store_time room_id o)
  store_time-Keeps t0 room_id none = λ w s h. h
  store_time-Keeps t0 room_id (some time) =
      >>=-Keeps (SameBut t0) (update_room query_failed (time_query room_id time)) (λ _. done time)
        (update_room-Keeps t0 (time_query room_id time)) (λ a w s h. h)

  pub close_time-Keeps :
      (t0 : Tables V' B) (start_timestamp clock : DateTime) (room_id : Uuid) (time : RoomTime)
      (end : RoomTimeBound)
      → Keeps (SameBut t0) (close_time start_timestamp clock room_id time end)
  close_time-Keeps t0 start_timestamp clock room_id time RoomTimeBound.unbounded =
      store_time-Keeps t0 room_id _
  close_time-Keeps t0 start_timestamp clock room_id time (RoomTimeBound.excluded stop) = λ w s h. h

  insert_adjustment-Fails :
      (t0 : Tables V' B) (room_id : Uuid) (started_at : DateTime) (segments : Segments) (offset : ℤ)
      → is_adjusted room_id t0.adjustments ≡ true
      → Fails (SameBut t0) (insert_adjustment query_failed room_id started_at segments offset)
  unfolding insert_adjustment adjustment_statement
  insert_adjustment-Fails t0 room_id started_at segments offset h =
      statement-Fails (SameBut t0) (query_failed refused)
        (adjustment_statement query_failed room_id started_at segments offset)
        (query_failed violates_constraint)
        (λ ids now t (r, e, c, a). rw (adjustment_statement, a, h) refl)

  record_adjustment-Fails :
      (t0 : Tables V' B) (start_timestamp clock : DateTime) (room : Room.Object V')
      (started_at : DateTime) (segments : Segments) (offset : ℤ)
      → is_adjusted room.id t0.adjustments ≡ true
      → Fails (SameBut t0) (record_adjustment start_timestamp clock room started_at segments offset)
  unfolding record_adjustment
  record_adjustment-Fails t0 start_timestamp clock room started_at segments offset h =
      >>=-Fails_after (SameBut t0) (read query_failed (λ t. ok tt)) _
        (read-Keeps query_failed (SameBut t0) (λ t. ok tt))
        (λ _.
          >>=-Fails_after (SameBut t0) (lift (wrap_time room.id (try_from room.time))) _
            (λ w s k. k)
            (λ time.
              >>=-Fails_after (SameBut t0) (close_time start_timestamp clock room.id time time.end)
                _ (close_time-Keeps t0 start_timestamp clock room.id time time.end)
                (λ new_time.
                  >>=-Fails (SameBut t0)
                    (insert_adjustment query_failed room.id started_at segments offset)
                    (λ _. done new_time)
                    (insert_adjustment-Fails t0 room.id started_at segments offset h))))

module _ {V' B : Type 0} ⦃j : Json V'⦄ (from_json : V' → Option B) (into_json : B → Option V') where
  -- The adjustment of a room that has been adjusted before fails: no room is added, and events,
  -- changes and adjustments stay as they were.
  pub call-adjusted :
      (min_segment_length : ℕ) (start_timestamp clock : DateTime) (room : Room.Object V')
      (started_at : DateTime) (segments : Segments) (offset : ℤ) (w : World) (s : Session V' B)
      → is_adjusted room.id s.tables.adjustments ≡ true
      → (e : CallError) × ((call from_json into_json min_segment_length start_timestamp clock room
            started_at segments offset w s).0
          ≡ err e)
        × SameBut s.tables
            ((call from_json into_json min_segment_length start_timestamp clock room started_at
                segments offset w s).1
              ).tables
  unfolding call
  call-adjusted min_segment_length start_timestamp clock room started_at segments offset w s h =
      >>=-Fails_after (SameBut s.tables) (lift (parse_segments segments)) _ (λ w s k. k)
        (λ parsed.
          >>=-Fails (SameBut s.tables)
            (record_adjustment start_timestamp clock room started_at segments offset) _
            (record_adjustment-Fails s.tables start_timestamp clock room started_at segments offset
              h))
        w s (refl, refl, refl, refl)
