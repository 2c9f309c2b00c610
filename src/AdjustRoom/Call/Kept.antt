-- ===== src/AdjustRoom/Call/Kept.antt =====
-- The steps of an adjustment that leave rooms and adjustments (`src/app/operations/adjust_room.rs`).
use event.Base.{
  ◌≡◌, ℕ, ℤ, Bool-cases, inl, inr, Option, none, some, List, [], ◌∷◌, Result, ok, err, String,
  subst,
}
use event.Base.Json.{Json}
use event.Db.{Uuid}
use event.Db.Event.Insert.{InsertQuery}
use event.Db.Event.Queries.{ListQuery}
use event.Db.Event.Stored.{has_content}
use event.Db.Room
use event.Db.Session.{Tables, statement}
use event.Db.Session.Laws.{Keeps, >>=-Keeps, statement-Keeps, atomically-Keeps}
use event.Db.Queries.{refused, events_of, insert_event, event_statement, delete_kind}
use event.Db.Queries.Laws.{ok_parts, read-Keeps}
use event.RoomTime.{DateTime}
use event.Ranges.{Range}
use event.AdjustRoom.Breaks.{insert_queries}
use event.AdjustRoom.CloneEvents.{CloneError, Row}
use event.AdjustRoom.Call.{query_failed, break_events, stream_events}
use event.AdjustRoom.Call.Rooms.{clone_gaps, clone_from, clone_statement, with_rows}
use event.AdjustRoom.Call.Run.{insert_all, insert_cuts, cut_breaks, cuts_of}
use event.AdjustRoom.Call.Adjusted.{room_ids}

module _ {V' B : Type 0} where
  -- The same rooms and adjustments, but for the times of the rooms.
  abbrev pub SameRooms : Tables V' B → Tables V' B → Type 0
  SameRooms t t' = (room_ids t'.rooms ≡ room_ids t.rooms) × (t'.adjustments ≡ t.adjustments)

  with_rows-SameRooms :
      (t0 t t' : Tables V' B) (ids : ℕ → Uuid) (now : DateTime)
      (r : Result {0} CloneError (List (Row (Option V' × Option B))))
      → SameRooms t0 t
      → with_rows ids now t r ≡ ok (tt, t')
      → SameRooms t0 t'
  with_rows-SameRooms t0 t t' ids now (ok rows) h e = subst (SameRooms t0) (ok_parts e).1 h
  with_rows-SameRooms t0 t t' ids now (err x) h e = cc

  clone_from-Keeps :
      (t0 : Tables V' B) (room_id : Uuid) (o : Option Uuid) (gaps : List Range) (offset : ℤ)
      → Keeps (SameRooms t0) (clone_from {V = V'} {B = B} room_id o gaps offset)
  unfolding clone_statement
  clone_from-Keeps t0 room_id none gaps offset = λ w s h. h
  clone_from-Keeps t0 room_id (some source_room_id) gaps offset =
      statement-Keeps (SameRooms t0) (query_failed refused)
        (clone_statement room_id source_room_id gaps offset)
        (λ ids now t a t' h e. with_rows-SameRooms t0 t t' ids now _ h e)

  pub clone_gaps-Keeps :
      (t0 : Tables V' B) (room : Room.Object V') (gaps : List Range) (offset : ℤ)
      → Keeps (SameRooms t0) (clone_gaps {V = V'} {B = B} room gaps offset)
  unfolding clone_gaps
  clone_gaps-Keeps t0 room gaps offset = clone_from-Keeps t0 room.id room.source_room_id gaps offset

  pub delete_kind-Keeps :
      (t0 : Tables V' B) (room_id : Uuid) (kind : String)
      → Keeps (SameRooms t0) (delete_kind query_failed room_id kind)
  unfolding delete_kind
  delete_kind-Keeps t0 room_id kind =
      statement-Keeps (SameRooms t0) (query_failed refused) _
        (λ ids now t a t' h e. subst (SameRooms t0) (ok_parts e).1 h)

  events_of-Keeps :
      (t0 : Tables V' B) (into_json : B → Option V') (q : ListQuery)
      → Keeps (SameRooms t0) (events_of query_failed into_json q)
  unfolding events_of
  events_of-Keeps t0 into_json q = read-Keeps query_failed (SameRooms t0) _

  insert_event-Keeps :
      (t0 : Tables V' B) (into_json : B → Option V') (q : InsertQuery V' B)
      → Keeps (SameRooms t0) (insert_event query_failed into_json q)
  unfolding insert_event event_statement
  insert_event-Keeps t0 into_json q =
      >>=-Keeps (SameRooms t0) (statement (query_failed refused) (event_statement query_failed q)) _
        (statement-Keeps (SameRooms t0) (query_failed refused) (event_statement query_failed q)
          (λ ids now t a t' h e. elim (Bool-cases (has_content q.content q.binary_data)) [
            | inl b ↦ subst (SameRooms t0) (ok_parts (rw (event_statement, b) at e)).1 h
            | inr b ↦ cc (rw (event_statement, b) at e)
          ]))
        (λ raw w s h. h)

module _ {V' B : Type 0} ⦃j : Json V'⦄ (from_json : V' → Option B) (into_json : B → Option V') where
  insert_all-Keeps :
      (t0 : Tables V' B) (qs : List (InsertQuery V' B))
      → Keeps (SameRooms t0) (insert_all from_json into_json qs)
  unfolding insert_all
  insert_all-Keeps t0 [] = λ w s h. h
  insert_all-Keeps t0 (q ∷ qs) =
      >>=-Keeps (SameRooms t0) (insert_event query_failed into_json q) _
        (insert_event-Keeps t0 into_json q) (λ _. insert_all-Keeps t0 qs)

  insert_cuts-Keeps :
      (t0 : Tables V' B) (o : Option (List (InsertQuery V' B)))
      → Keeps (SameRooms t0) (insert_cuts from_json into_json o)
  insert_cuts-Keeps t0 none = λ w s h. h
  insert_cuts-Keeps t0 (some []) = λ w s h. h
  insert_cuts-Keeps t0 (some (q ∷ qs)) =
      atomically-Keeps (SameRooms t0) (query_failed refused)
        (insert_all from_json into_json (q ∷ qs)) (insert_all-Keeps t0 (q ∷ qs))

  pub cut_breaks-Keeps :
      (t0 : Tables V' B) (room_id : Uuid)
      → Keeps (SameRooms t0) (cut_breaks from_json into_json room_id)
  unfolding cut_breaks
  cut_breaks-Keeps t0 room_id =
      >>=-Keeps (SameRooms t0) (events_of query_failed into_json (break_events room_id)) _
        (events_of-Keeps t0 into_json (break_events room_id))
        (λ events. insert_cuts-Keeps t0 (insert_queries from_json room_id events))

  pub cuts_of-Keeps :
      (t0 : Tables V' B) (room_id : Uuid)
      → Keeps (SameRooms t0) (cuts_of from_json into_json room_id)
  unfolding cuts_of
  cuts_of-Keeps t0 room_id =
      >>=-Keeps (SameRooms t0) (events_of query_failed into_json (stream_events room_id)) _
        (events_of-Keeps t0 into_json (stream_events room_id)) (λ events w s h. h)
