-- ===== src/AdjustRoom/Call/Outcome.antt =====
-- What an adjustment that goes through makes of the tables (`call` of
-- `src/app/operations/adjust_room.rs`).
use event.Base.{◌≡◌, sym, ◌∙◌, ap, subst, ℕ, ℤ, pos, Option, List, [], ◌∷◌, ◌++◌, Result, ok}
use event.Base.Json.{Json}
use event.Db.Adjustment.{Segments}
use event.Db.Room
use event.Db.Session.{Tables, Session, World, lift}
use event.Db.Session.Laws.{>>=-ok, lift-ok}
use event.Db.Queries.{is_adjusted, adjustment_row}
use event.Db.Queries.Laws.{ok_value}
use event.RoomTime.{DateTime, RoomTime}
use event.Ranges.{Range}
use event.AdjustRoom.Invert.{invert_segments}
use event.AdjustRoom.Call.{
  CallError, AdjustOutput, parse_segments, opening_and_duration, rtc_offset, nano_segments, finish,
  total_millis, milliseconds,
}
use event.AdjustRoom.Call.Run.{
  call, record_adjustment, cut_breaks, cuts_of, copy_room, modify_room, adjust, adjust_from,
}
use event.AdjustRoom.Call.Adjusted.{room_ids}
use event.AdjustRoom.Call.Kept.{SameRooms, cut_breaks-Keeps, cuts_of-Keeps}
use event.AdjustRoom.Call.Derived.{
  AddsRooms, AddsRooms-steps, Records, record_adjustment-ok, copy_room-ok, modify_room-ok, kept_by,
}

module _ {V' B : Type 0} where
  -- From the rooms to the output that has them.
  AddsRooms-output :
      (room : Room.Object V') (started_at : DateTime) (duration : ℤ) (o out : AdjustOutput V')
      (t t1 t' : Tables V' B)
      → ◌≡◌ {A = Result CallError (AdjustOutput V')} (ok o) (ok out)
      → t1 ≡ t'
      → AddsRooms room started_at duration o.original_room o.modified_room t t1
      → t1.adjustments ≡ t.adjustments
      → AddsRooms room started_at duration out.original_room out.modified_room t t'
        × (t'.adjustments ≡ t.adjustments)
  AddsRooms-output room started_at duration o out t t1 t' e k h a =
      subst
        (λ x.
          AddsRooms room started_at duration x.original_room x.modified_room t t'
          × (t'.adjustments ≡ t.adjustments))
        (ok_value e)
        (subst
          (λ x.
            AddsRooms room started_at duration o.original_room o.modified_room t x
            × (x.adjustments ≡ t.adjustments))
          k (h, a))

  Records-steps :
      (room original modified : Room.Object V') (started_at : DateTime) (duration : ℤ)
      (segments : Segments) (offset : ℤ) (t t1 t2 t3 t' : Tables V' B)
      → t ≡ t1
      → room_ids t2.rooms ≡ room_ids t1.rooms
      → Records room.id started_at segments offset t1 t2
      → SameRooms t2 t3
      → AddsRooms room started_at duration original modified t3 t'
      → t'.adjustments ≡ t3.adjustments
      → Records room.id started_at segments offset t t'
        × AddsRooms room started_at duration original modified t t'
  Records-steps room original modified started_at duration segments offset t t1 t2 t3 t' k i2
        (free, (now, more)) (i3, a3) (derived, derived', ids, gone) a =
      (
        (
          ap (λ x. is_adjusted room.id x.adjustments) k ∙ free,
          (
            now,
            a
                ∙ a3
                ∙ more
                ∙ ap
                    (λ x.
                      x.adjustments ++ adjustment_row now room.id started_at segments offset ∷ [])
                    (sym k),
          ),
        ),
        (
          derived,
          derived',
          ids
              ∙ ap (λ x. x ++ original.id ∷ modified.id ∷ [])
                  (i3 ∙ i2 ∙ ap (λ x. room_ids x.rooms) (sym k)),
          gone,
        ),
      )

module _ {V' B : Type 0} ⦃j : Json V'⦄ (from_json : V' → Option B) (into_json : B → Option V') where
  adjust-ok :
      (min_segment_length : ℕ) (room : Room.Object V') (started_at : DateTime)
      (segments : List Range) (offset : ℤ) (room_opening : DateTime)
      (room_duration segments_finish : ℤ) (w : World) (s s' : Session V' B) (out : AdjustOutput V')
      → adjust from_json into_json min_segment_length room started_at segments offset room_opening
          room_duration segments_finish w s
        ≡ (ok out, s')
      → AddsRooms room started_at
          (milliseconds (total_millis (pos 0) segments))
          out.original_room
          out.modified_room
          s.tables
          s'.tables
        × (s'.tables.adjustments ≡ s.tables.adjustments)
  unfolding adjust
  adjust-ok min_segment_length room started_at segments offset room_opening room_duration
        segments_finish w s s' out h =
      let duration : ℤ = milliseconds (total_millis (pos 0) segments) in
      let nanos : List Range = nano_segments (rtc_offset started_at room_opening) segments in
      let (original, s1, e1, h1) =
        >>=-ok
          (copy_room room started_at duration
            (invert_segments nanos room_duration min_segment_length) (pos 0))
          _ w s h in
      let (cut_gaps, s2, e2, h2) = >>=-ok (cuts_of from_json into_json original.id) _ w s1 h1 in
      let (room_gaps, s3, e3, h3) = >>=-ok (cuts_of from_json into_json room.id) _ w s2 h2 in
      let (modified, s4, e4, h4) =
        >>=-ok (modify_room original started_at duration cut_gaps offset) _ w s3 h3 in
      let (derived, added) = copy_room-ok room started_at duration _ (pos 0) w s s1 original e1 in
      let (derived', added', gone) =
        modify_room-ok original started_at duration cut_gaps offset w s3 s4 modified e4 in
      let (same, kept) = lift-ok (ok _) w s4 s' h4 in
      let (ids, adjustments) =
        AddsRooms-steps s.tables s1.tables s2.tables s3.tables s4.tables original modified added
          (kept_by (cuts_of from_json into_json original.id) w s1 s2
            (λ t0. cuts_of-Keeps from_json into_json t0 original.id) e2)
          (kept_by (cuts_of from_json into_json room.id) w s2 s3
            (λ t0. cuts_of-Keeps from_json into_json t0 room.id) e3)
          added' in
      AddsRooms-output room started_at duration _ out s.tables s4.tables s'.tables same kept
        (derived, derived', ids, gone) adjustments

  -- The time of the room is bounded, and there are segments.
  adjust_from-ok :
      (min_segment_length : ℕ) (room : Room.Object V') (started_at : DateTime)
      (segments : List Range) (offset : ℤ) (time : RoomTime) (w : World) (s s' : Session V' B)
      (out : AdjustOutput V')
      → adjust_from from_json into_json min_segment_length room started_at segments offset time w s
        ≡ (ok out, s')
      → ((stop : ℤ) × (finish segments ≡ ok stop))
        × AddsRooms room started_at
            (milliseconds (total_millis (pos 0) segments))
            out.original_room
            out.modified_room
            s.tables
            s'.tables
        × (s'.tables.adjustments ≡ s.tables.adjustments)
  unfolding adjust_from
  adjust_from-ok min_segment_length room started_at segments offset time w s s' out h =
      let (opening, s1, e1, h1) =
        >>=-ok (lift (opening_and_duration room.id time time.end)) _ w s h in
      let (stop, s2, e2, h2) = >>=-ok (lift (finish segments)) _ w s1 h1 in
      let (_, k1) = lift-ok (opening_and_duration room.id time time.end) w s s1 e1 in
      let (last, k2) = lift-ok (finish segments) w s1 s2 e2 in
      let (added, same) =
        adjust-ok min_segment_length room started_at segments offset opening.0 opening.1 stop w s2
          s' out h2 in
      let (added', same') =
        subst
          (λ t.
            AddsRooms room started_at (milliseconds (total_millis (pos 0) segments))
              out.original_room out.modified_room t s'.tables
            × (s'.tables.adjustments ≡ t.adjustments))
          (sym (k1 ∙ k2)) (added, same) in
      ((stop, last), added', same')

  -- An adjustment that goes through is recorded, for a room that had none, and adds two rooms that
  -- last for the total length of the segments from the start of the recording: one derived from
  -- the room, the other from that one, which holds no stream events; the segments are closed at
  -- their starts and open at their ends, and there is at least one.
  pub call-AddsRooms :
      (min_segment_length : ℕ) (start_timestamp clock : DateTime) (room : Room.Object V')
      (started_at : DateTime) (segments : Segments) (offset : ℤ) (w : World) (s s' : Session V' B)
      (out : AdjustOutput V')
      → call from_json into_json min_segment_length start_timestamp clock room started_at segments
          offset w s
        ≡ (ok out, s')
      → (parsed : List Range) × (parse_segments segments ≡ ok parsed)
        × ((stop : ℤ) × (finish parsed ≡ ok stop))
        × Records room.id started_at segments offset s.tables s'.tables
        × AddsRooms room started_at
            (milliseconds (total_millis (pos 0) parsed))
            out.original_room
            out.modified_room
            s.tables
            s'.tables
  unfolding call
  call-AddsRooms min_segment_length start_timestamp clock room started_at segments offset w s s' out
        h =
      let (parsed, s1, e1, h1) = >>=-ok (lift (parse_segments segments)) _ w s h in
      let (time, s2, e2, h2) =
        >>=-ok (record_adjustment start_timestamp clock room started_at segments offset) _ w s1
          h1 in
      let (u, s3, e3, h3) = >>=-ok (cut_breaks from_json into_json room.id) _ w s2 h2 in
      let (p, k1) = lift-ok (parse_segments segments) w s s1 e1 in
      let (i2, recorded) =
        record_adjustment-ok start_timestamp clock room started_at segments offset w s1 s2 time
          e2 in
      let kept =
        kept_by (cut_breaks from_json into_json room.id) w s2 s3
          (λ t0. cut_breaks-Keeps from_json into_json t0 room.id) e3 in
      let (last, added, same) =
        adjust_from-ok min_segment_length room started_at parsed offset time w s3 s' out h3 in
      let (records, adds) =
        Records-steps room out.original_room out.modified_room started_at
          (milliseconds (total_millis (pos 0) parsed)) segments offset s.tables s1.tables s2.tables
          s3.tables s'.tables k1 i2 recorded kept added same in
      (parsed, p, last, records, adds)
