-- ===== src/Tests/Locks.antt =====
-- Examples of requests that update a room.
use event.Base.{
  Bool, ℕ, pos, ◌<ℤ◌, ◌≡◌, ◌⊎◌, refl, str_eq, true, false, none, some, String, Option, [], ◌∷◌, ◌*◌,
  ◌+◌, ◌&&◌, ◌||◌, not, if◌then◌else◌, Result, ok, err, arith,
}
use event.Db.Room
use event.Db.Room.{minigroup}
use event.Db.Room.Queries as RoomQueries
use event.Db.Session.{Tables, World, Session}
use event.Db.Session.Failing.{FailsOr}
use event.RoomTime as Time
use event.RoomTime.{Bound, BoundedDateTimeTuple, try_from, into_tuple}
use event.RoomTime.Update.{NotBefore}
use event.Endpoint.CreateEvent as CreateEvent
use event.Endpoint.CreateEvent.{AuthzRequest}
use event.Endpoint.Helpers.{ErrorKind}
use event.Endpoint.Rooms.{UpdatePayload, Response, Readings, room_request}
use event.Endpoint.Rooms.Handlers.{update, locked_types, whiteboard_access}
use event.Endpoint.Rooms.Locked.{locked_types-create, whiteboard_access-create}
use event.Endpoint.Rooms.Succeeding.{locked_types-Succeeds}
use event.Endpoint.Rooms.Times.{notifications_of, update-notifies, update-time}

abbrev room : Room.Object String
room = record {
  id = 1;
  audience = "school";
  source_room_id = none;
  time = (Bound.included (pos 12), Bound.excluded (pos 400));
  tags = none;
  created_at = pos 1;
  preserve_history = true;
  classroom_id = 2;
  locked_types = λ k. none;
  whiteboard_access = λ a. some true;
  kind = minigroup;
}

abbrev session : Session String ℕ
session = record {
  tables = record { rooms = room ∷ []; events = []; changes = []; adjustments = [] };
  count = 0;
}

abbrev world : World
world = record { fails = λ i. false; id = λ i k. 100 + 10 * i + k; now = λ i. pos (30 + i) }

-- The teacher may do all, a pupil may create events.
abbrev authorize : AuthzRequest → Result {0} String Unit
authorize q =
    if str_eq q.account_id "teacher" || str_eq q.action "create" then ok tt else err "denied"

abbrev locks : String → Option Bool
locks k = if str_eq k "message" then some true else none

abbrev accesses : String → Option Bool
accesses a = if str_eq a "pupil" then some false else none

abbrev locked : Result (ErrorKind String) (Response String) × Session String ℕ
locked = locked_types (λ id. "2") authorize (pos 30) 1 locks "teacher" world session

abbrev message : CreateEvent.CreatePayload String
message = record {
  kind = "message";
  set = none;
  label = none;
  attribute = none;
  content = "hello";
  is_claim = false;
  is_persistent = true;
  removed = false;
}

abbrev drawing : CreateEvent.CreatePayload String
drawing = record message { kind = "draw" }

abbrev create_readings : CreateEvent.Readings
create_readings = record { found_at = pos 40; occurred_at = pos 41; built_at = pos 42; id = 77 }

abbrev answer : Response String
answer = elim (locked.0) [ ok r ↦ r | err e ↦ record { body = room; notifications = [] } ]

locked_test : answer.body.locked_types "message" ≡ some true
unfolding locked_types RoomQueries.find_room RoomQueries.is_range
locked_test = refl

locked_types-create_example :
    FailsOr
      (λ t. t ≡ (locked.1).tables)
      (authorize (room_request (λ id. "2") answer.body "update" "pupil") ≡ ok tt)
      (CreateEvent.handle
        (λ id. "2")
        (λ a. a)
        authorize
        (λ v. 6)
        100
        (λ v. none)
        (λ b. none)
        create_readings
        1
        message
        "pupil"
        world
        (locked.1))
unfolding locked_types event.Db.Session.statement event.Db.Session.atomically RoomQueries.find_room
    RoomQueries.is_range
locked_types-create_example =
    locked_types-create (λ id. "2") authorize (λ a. a) (λ v. 6) 100 (λ v. none) (λ b. none) (pos 30)
      1 locks "teacher" world session (locked.1) answer create_readings message "pupil" world refl
      refl

abbrev taken : Result (ErrorKind String) (Response String) × Session String ℕ
taken = whiteboard_access (λ id. "2") authorize (pos 30) 1 accesses "teacher" world session

abbrev taken_answer : Response String
taken_answer = elim (taken.0) [ ok r ↦ r | err e ↦ record { body = room; notifications = [] } ]

whiteboard_access-create_example :
    FailsOr
      (λ t. t ≡ (taken.1).tables)
      (authorize (room_request (λ id. "2") taken_answer.body "update" "pupil") ≡ ok tt)
      (CreateEvent.handle
        (λ id. "2")
        (λ a. a)
        authorize
        (λ v. 6)
        100
        (λ v. none)
        (λ b. none)
        create_readings
        1
        drawing
        "pupil"
        world
        (taken.1))
unfolding whiteboard_access event.Db.Session.statement event.Db.Session.atomically
    RoomQueries.find_room RoomQueries.is_range
whiteboard_access-create_example =
    whiteboard_access-create (λ id. "2") authorize (λ a. a) (λ v. 6) 100 (λ v. none) (λ b. none)
      (pos 30) 1 accesses "teacher" world session (taken.1) taken_answer create_readings drawing
      "pupil" world refl refl refl

locked_types-Succeeds_example :
    (r : Response String) × (s' : Session String ℕ) × (locked ≡ (ok r, s'))
    × (RoomQueries.find_room 1 s'.tables.rooms ≡ some r.body)
    × (r.body.locked_types "message" ≡ some true)
unfolding RoomQueries.find_room RoomQueries.is_range room_request
locked_types-Succeeds_example =
    locked_types-Succeeds (λ id. "2") authorize (pos 30) 1 locks "teacher" room "message" world
      session (λ n. refl) refl refl refl refl

-- The room is asked to end at 20, which has passed.
abbrev asked : BoundedDateTimeTuple
asked = (Bound.included (pos 12), Bound.excluded (pos 20))

abbrev payload : UpdatePayload String
payload = record { time = some asked; tags = none; classroom_id = none }

abbrev readings : Readings
readings = record { found_at = pos 30; updated_at = pos 31; checked_at = pos 32; ended_at = pos 33 }

abbrev updated : Result (ErrorKind String) (Response String) × Session String ℕ
updated = update (λ id. "2") authorize readings 1 payload "teacher" world session

-- It ends at the moment of the update, and its subscribers are told.
abbrev ended_room : Room.Object String
ended_room = record room { time = (Bound.included (pos 12), Bound.excluded (pos 31)) }

abbrev updated_answer : Response String
updated_answer = record {
  body = ended_room;
  notifications = notifications_of (λ id. "2") ended_room true;
}

updated_test : updated.0 ≡ ok updated_answer
unfolding update event.Db.Session.statement RoomQueries.find_room RoomQueries.is_range
updated_test = refl

update-notifies_example :
    (old : Room.Object String) × (RoomQueries.find_room 1 session.tables.rooms ≡ some old)
    × (updated_answer.notifications
        ≡ notifications_of
            (λ id. "2")
            ended_room
            (not (Room.is_closed (pos 32) old.time) && Room.is_closed (pos 33) ended_room.time))
unfolding update event.Db.Session.statement RoomQueries.find_room RoomQueries.is_range
update-notifies_example =
    update-notifies (λ id. "2") authorize readings 1 payload "teacher" asked world session
      (updated.1) updated_answer refl (omega arith) refl

update-time_example :
    (old : Room.Object String) × (RoomQueries.find_room 1 session.tables.rooms ≡ some old)
    × ((self : Time.RoomTime) × (t : Time.RoomTime) × (try_from old.time ≡ ok self)
        × (Time.update (pos 31) self asked ≡ some t)
        × (ended_room.time ≡ into_tuple t)
        × ((pos 31 <ℤ self.start) ⊎ ((t.start ≡ self.start) × NotBefore (pos 31) t.end)))
unfolding update event.Db.Session.statement RoomQueries.find_room RoomQueries.is_range
update-time_example =
    update-time (λ id. "2") authorize readings 1 payload "teacher" asked world session (updated.1)
      updated_answer refl refl
