-- ===== src/AdjustRoom/Call/Derived.antt =====
-- What an adjustment that goes through makes of the tables (`call` of
-- `src/app/operations/adjust_room.rs`).
use event.Base.{
  ◌≡◌, refl, sym, ◌∙◌, ap, subst, ℕ, ℤ, ◌+ℤ◌, false, Bool-cases, inl, inr, some, List, [], ◌∷◌,
  ◌++◌, ok,
}
use event.Db.{Uuid}
use event.Db.Adjustment
use event.Db.Adjustment.{Segments}
use event.Db.Rows.{select}
use event.Db.Event.Queries.{is_deleted_by}
use event.Db.Event.Stored.Elsewhere.{delete_events-gone}
use event.Db.Room
use event.Db.Room.Queries as RoomQueries
use event.Db.Session.{Tables, Session, World, Task, lift}
use event.Db.Session.Laws.{Keeps, >>=-ok, lift-ok, statement-ok}
use event.Db.Queries.{
  refused, is_adjusted, adjustment_row, adjustment_statement, insert_adjustment, read, delete_kind,
}
use event.Db.Queries.Laws.{ok_value, ok_parts, insert_room-ok, delete_kind-ok, read-ok}
use event.RoomTime.{DateTime, Bound, RoomTime, try_from}
use event.Ranges.{Range}
use event.AdjustRoom.Call.{CallError, query_failed, wrap_time, to_nanoseconds}
use event.AdjustRoom.Call.Rooms.{create_room, clone_gaps, room_query}
use event.AdjustRoom.Call.Run.{record_adjustment, close_time, copy_room, modify_room}
use event.AdjustRoom.Call.Adjusted.{room_ids, SameBut, close_time-Keeps}
use event.AdjustRoom.Call.Kept.{SameRooms, clone_gaps-Keeps, delete_kind-Keeps}

-- The room is derived from the other, and lasts for the duration from the start of the recording.
abbrev pub IsDerived : {V : Type 0} → DateTime → ℤ → Room.Object V → Room.Object V → Type 0
IsDerived started_at duration source room =
    (room.source_room_id ≡ some source.id)
    × (room.time ≡ (Bound.included started_at, Bound.excluded (started_at +ℤ duration)))
    × (room.audience ≡ source.audience)
    × (room.tags ≡ source.tags)
    × (room.classroom_id ≡ source.classroom_id)
    × (room.kind ≡ source.kind)

room_ids-append :
    {V : Type 0} (rooms : List (Room.Object V)) (room : Room.Object V)
    → room_ids (rooms ++ room ∷ []) ≡ room_ids rooms ++ room.id ∷ []
room_ids-append [] room = refl
room_ids-append (r ∷ rooms) room = ap (λ ids. r.id ∷ ids) (room_ids-append rooms room)

append_two : (ids : List Uuid) (a b : Uuid) → (ids ++ a ∷ []) ++ b ∷ [] ≡ ids ++ a ∷ b ∷ []
append_two [] a b = refl
append_two (i ∷ ids) a b = ap (λ x. i ∷ x) (append_two ids a b)

module _ {V' B : Type 0} where
  -- One room is new, and the adjustments are the same.
  abbrev pub AddsRoom : Room.Object V' → Tables V' B → Tables V' B → Type 0
  AddsRoom room t t' =
      (room_ids t'.rooms ≡ room_ids t.rooms ++ room.id ∷ []) × (t'.adjustments ≡ t.adjustments)

  create_room-ok :
      (source : Room.Object V') (started_at : DateTime) (duration : ℤ) (w : World)
      (s s' : Session V' B) (room : Room.Object V')
      → create_room source started_at duration w s ≡ (ok room, s')
      → IsDerived started_at duration source room × AddsRoom room s.tables s'.tables
  unfolding create_room RoomQueries.inserted_room RoomQueries.new_query
  create_room-ok source started_at duration w s s' room h =
      let (same, t) =
        insert_room-ok query_failed (room_query source started_at duration) w s s' h in
      (
        subst (IsDerived started_at duration source) same (refl, refl, refl, refl, refl, refl),
        subst (AddsRoom room s.tables) t (room_ids-append s.tables.rooms room, refl),
      )

  -- What a step kept, given its result.
  pub kept_by :
      {A : Type 0} (m : Task CallError V' B A) (w : World) (s s' : Session V' B) {a : A}
      → ((t0 : Tables V' B) → Keeps (SameRooms t0) m)
      → m w s ≡ (ok a, s')
      → SameRooms s.tables s'.tables
  kept_by m w s s' k h =
      subst (λ r. SameRooms s.tables (r.1).tables) h (k s.tables w s (refl, refl))

  pub copy_room-ok :
      (source : Room.Object V') (started_at : DateTime) (duration : ℤ) (gaps : List Range)
      (offset : ℤ) (w : World) (s s' : Session V' B) (room : Room.Object V')
      → copy_room source started_at duration gaps offset w s ≡ (ok room, s')
      → IsDerived started_at duration source room × AddsRoom room s.tables s'.tables
  unfolding copy_room
  copy_room-ok source started_at duration gaps offset w s s' room h =
      let (r, s1, e1, h1) = >>=-ok (create_room source started_at duration) _ w s h in
      let (u, s2, e2, h2) = >>=-ok (clone_gaps r gaps offset) _ w s1 h1 in
      let (derived, (ids, adjustments)) = create_room-ok source started_at duration w s s1 r e1 in
      let (ids', adjustments') =
        kept_by (clone_gaps r gaps offset) w s1 s2 (λ t0. clone_gaps-Keeps t0 r gaps offset) e2 in
      let (same, kept) = lift-ok (ok r) w s2 s' h2 in
      subst (λ x. IsDerived started_at duration source x × AddsRoom x s.tables s'.tables)
        (ok_value same)
        (derived, subst (AddsRoom r s.tables) kept (ids' ∙ ids, adjustments' ∙ adjustments))

  adjustment_statement-ok :
      (room_id : Uuid) (started_at : DateTime) (segments : Segments) (offset : ℤ) (ids : ℕ → Uuid)
      (now : DateTime) (t t' : Tables V' B) (row : Adjustment.Object)
      → adjustment_statement query_failed room_id started_at segments offset ids now t
        ≡ ok (row, t')
      → (is_adjusted room_id t.adjustments ≡ false)
        × (t'.adjustments
            ≡ t.adjustments ++ adjustment_row now room_id started_at segments offset ∷ [])
        × (t'.rooms ≡ t.rooms)
  unfolding adjustment_statement
  adjustment_statement-ok room_id started_at segments offset ids now t t' row h =
      elim (Bool-cases (is_adjusted room_id t.adjustments)) [
        | inl b ↦ cc (rw (adjustment_statement, b) at h)
        | inr b ↦
            let e = (ok_parts (rw (adjustment_statement, b) at h)).1 in
            (b, sym (ap (λ x. x.adjustments) e), sym (ap (λ x. x.rooms) e))
      ]

  -- The adjustments that there are after one more for the room.
  abbrev pub Records : Uuid → DateTime → Segments → ℤ → Tables V' B → Tables V' B → Type 0
  Records room_id started_at segments offset t t' =
      (is_adjusted room_id t.adjustments ≡ false)
      × ((now : DateTime) × (t'.adjustments
            ≡ t.adjustments ++ adjustment_row now room_id started_at segments offset ∷ []))

  pub record_adjustment-ok :
      (start_timestamp clock : DateTime) (room : Room.Object V') (started_at : DateTime)
      (segments : Segments) (offset : ℤ) (w : World) (s s' : Session V' B) (time : RoomTime)
      → record_adjustment start_timestamp clock room started_at segments offset w s ≡ (ok time, s')
      → (room_ids s'.tables.rooms ≡ room_ids s.tables.rooms)
        × Records room.id started_at segments offset s.tables s'.tables
  unfolding record_adjustment insert_adjustment
  record_adjustment-ok start_timestamp clock room started_at segments offset w s s' time h =
      let (u, s1, e1, h1) = >>=-ok (read query_failed (λ t. ok tt)) _ w s h in
      let (old, s2, e2, h2) = >>=-ok (lift (wrap_time room.id (try_from room.time))) _ w s1 h1 in
      let (new, s3, e3, h3) =
        >>=-ok (close_time start_timestamp clock room.id old old.end) _ w s2 h2 in
      let (row, s4, e4, h4) =
        >>=-ok (insert_adjustment query_failed room.id started_at segments offset) _ w s3 h3 in
      let k1 = (read-ok query_failed (λ t. ok tt) w s s1 e1).1 in
      let k2 = (lift-ok (wrap_time room.id (try_from room.time)) w s1 s2 e2).1 in
      let (ids, events, changes, adjustments) =
        subst (λ r. SameBut s2.tables (r.1).tables) e3
          (close_time-Keeps s2.tables start_timestamp clock room.id old old.end w s2
            (refl, refl, refl, refl)) in
      let (first, more, rooms) =
        adjustment_statement-ok room.id started_at segments offset (w.id s3.count) (w.now s3.count)
          s3.tables s4.tables row
          (statement-ok (query_failed refused)
            (adjustment_statement query_failed room.id started_at segments offset) w s3 e4) in
      let k4 = (lift-ok (ok new) w s4 s' h4).1 in
      let same : s3.tables.adjustments ≡ s.tables.adjustments =
        adjustments ∙ ap (λ t. t.adjustments) (sym (k1 ∙ k2)) in
      (
        ap (λ t. room_ids t.rooms) (sym k4)
            ∙ ap room_ids rooms
            ∙ ids
            ∙ ap (λ t. room_ids t.rooms) (sym (k1 ∙ k2)),
        (
          ap (is_adjusted room.id) (sym same) ∙ first,
          (
            w.now s3.count,
            ap (λ t. t.adjustments) (sym k4)
                ∙ more
                ∙ ap
                    (λ x.
                      x ++ adjustment_row (w.now s3.count) room.id started_at segments offset ∷ [])
                    same,
          ),
        ),
      )

  -- Two rooms are new, one derived from the other; the second holds no stream events.
  abbrev pub AddsRooms :
      Room.Object V'
      → DateTime
      → ℤ
      → Room.Object V'
      → Room.Object V'
      → Tables V' B
      → Tables V' B
      → Type 0
  AddsRooms room started_at duration original modified t t' =
      IsDerived started_at duration room original
      × IsDerived started_at duration original modified
      × (room_ids t'.rooms ≡ room_ids t.rooms ++ original.id ∷ modified.id ∷ [])
      × (select (is_deleted_by modified.id "stream") t'.events ≡ [])

  pub modify_room-ok :
      (original : Room.Object V') (started_at : DateTime) (duration : ℤ) (gaps : List Range)
      (offset : ℤ) (w : World) (s s' : Session V' B) (room : Room.Object V')
      → modify_room original started_at duration gaps offset w s ≡ (ok room, s')
      → IsDerived started_at duration original room
        × AddsRoom room s.tables s'.tables
        × (select (is_deleted_by room.id "stream") s'.tables.events ≡ [])
  unfolding modify_room
  modify_room-ok original started_at duration gaps offset w s s' room h =
      let (r, s1, e1, h1) =
        >>=-ok (copy_room original started_at duration gaps (to_nanoseconds offset)) _ w s h in
      let (u, s2, e2, h2) = >>=-ok (delete_kind query_failed r.id "stream") _ w s1 h1 in
      let (derived, (i1, a1)) =
        copy_room-ok original started_at duration gaps (to_nanoseconds offset) w s s1 r e1 in
      let (i2, a2) =
        kept_by (delete_kind query_failed r.id "stream") w s1 s2
          (λ t0. delete_kind-Keeps t0 r.id "stream") e2 in
      let t2 = delete_kind-ok query_failed r.id "stream" w s1 s2 e2 in
      let (same, kept) = lift-ok (ok r) w s2 s' h2 in
      subst
        (λ x.
          IsDerived started_at duration original x
          × AddsRoom x s.tables s'.tables
          × (select (is_deleted_by x.id "stream") s'.tables.events ≡ []))
        (ok_value same)
        (subst
          (λ t.
            IsDerived started_at duration original r
            × AddsRoom r s.tables t
            × (select (is_deleted_by r.id "stream") t.events ≡ []))
          kept
          (
            derived,
            (i2 ∙ i1, a2 ∙ a1),
            subst (λ t. select (is_deleted_by r.id "stream") t.events ≡ []) t2
                (delete_events-gone r.id "stream" s1.tables.events),
          ))

  pub AddsRooms-steps :
      (t t1 t2 t3 t4 : Tables V' B) (original modified : Room.Object V')
      → AddsRoom original t t1
      → SameRooms t1 t2
      → SameRooms t2 t3
      → AddsRoom modified t3 t4
      → (room_ids t4.rooms ≡ room_ids t.rooms ++ original.id ∷ modified.id ∷ [])
        × (t4.adjustments ≡ t.adjustments)
  AddsRooms-steps t t1 t2 t3 t4 original modified (i1, a1) (i2, a2) (i3, a3) (i4, a4) = (
    i4
        ∙ ap (λ ids. ids ++ modified.id ∷ []) (i3 ∙ i2 ∙ i1)
        ∙ append_two (room_ids t.rooms) original.id modified.id,
    a4 ∙ a3 ∙ a2 ∙ a1,
  )
