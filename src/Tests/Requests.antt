-- ===== src/Tests/Requests.antt =====
-- Examples of requests for events.
use event.Base.{
  ℤ, Option, ◌+◌, ◌*◌, ℕ, pos, ◌+ℤ◌, ◌-ℤ◌, leb, ◌≡◌, str_eq, if◌then◌else◌, refl, true, false, none,
  some, String, [], ◌∷◌, Result, ok, err,
}
use event.Db.Event
use event.Db.Event.Raw.{RawObject}
use event.Db.Event.Stored.{earliest}
use event.Db.Event.Stored.Originals.{HasOriginals}
use event.Db.Room
use event.Db.Room.Queries as RoomQueries
use event.Db.Room.{minigroup}
use event.Db.Session.{Tables, World, Session}
use event.Db.Session.Failing.{FailsOr}
use event.RoomTime.{Bound}
use event.Endpoint.Helpers.{ErrorKind}
use event.Endpoint.CreateEvent.{
  CreatePayload, AuthzRequest, Readings, Response, handle, event_notification,
}
use event.Endpoint.CreateEvent.Authorized.{handle-IsGranted, IsGranted}
use event.Endpoint.CreateEvent.Stores.{handle-HasOriginals}
use event.Endpoint.CreateEvent.Created.{handle-ok}
use event.Endpoint.CreateEvent.Effects.{Creates, IsSinceOpening}

-- A message with a label, by the teacher.
abbrev message : RawObject String ℕ
message = record {
  id = 9;
  room_id = 1;
  kind = "message";
  set = "messages";
  label = some "first";
  attribute = none;
  content = some "hello";
  binary_data = none;
  occurred_at = pos 7;
  created_by = "teacher";
  created_at = pos 20;
  deleted_at = none;
  original_occurred_at = pos 7;
  original_created_by = "teacher";
  removed = false;
}

message-HasOriginals : HasOriginals (message ∷ [])
unfolding earliest
message-HasOriginals = ((λ live labelled. (message, refl, (refl, refl))), tt)

abbrev room : Room.Object String
room = record {
  id = 1;
  audience = "school";
  source_room_id = none;
  time = (Bound.included (pos 12), Bound.excluded (pos 40));
  tags = none;
  created_at = pos 1;
  preserve_history = true;
  classroom_id = 2;
  locked_types = λ k. none;
  whiteboard_access = λ a. none;
  kind = minigroup;
}

abbrev session : Session String ℕ
session = record {
  tables = record { rooms = room ∷ []; events = message ∷ []; changes = []; adjustments = [] };
  count = 0;
}

abbrev world : World
world = record { fails = λ i. false; id = λ i k. 100 + 10 * i + k; now = λ i. pos (30 + i) }

abbrev payload : CreatePayload String
payload = record {
  kind = "message";
  set = some "messages";
  label = some "first";
  attribute = none;
  content = "hello!";
  is_claim = false;
  is_persistent = true;
  removed = false;
}

abbrev readings : Readings
readings = record { found_at = pos 30; occurred_at = pos 31; built_at = pos 32; id = 77 }

-- Only creation is granted.
abbrev authorize : AuthzRequest → Result {0} String Unit
authorize q = if str_eq q.action "create" then ok tt else err "denied"

abbrev handled : Result (ErrorKind String) (Response String) × Session String ℕ
handled =
    handle (λ id. "2") (λ a. a) authorize (λ v. 6) 100 (λ v. none) (λ b. none) readings 1 payload
      "pupil" world session

-- The event is an edition of the teacher's.
abbrev created : Event.Object String
created = record {
  id = 150;
  room_id = 1;
  kind = "message";
  set = "messages";
  label = some "first";
  attribute = none;
  content = "hello!";
  occurred_at = pos 19;
  created_by = "pupil";
  created_at = pos 1020;
  deleted_at = none;
  original_occurred_at = pos 7;
  original_created_by = "teacher";
  removed = false;
}

abbrev answer : Response String
answer = record {
  body = created;
  notifications = event_notification ("rooms" ∷ "2" ∷ "events" ∷ []) created ∷ [];
}

handle_test : handled.0 ≡ ok answer
unfolding handle ◌+ℤ◌ ◌-ℤ◌ event.Db.Session.statement event.Db.Room.Queries.find_room
    event.AdjustRoom.Invert.total_nanos
handle_test = refl

handle-IsGranted_example :
    FailsOr
      (λ t. t ≡ session.tables)
      (IsGranted
        (λ id. "2")
        (λ a. a)
        authorize
        (λ v. 6)
        100
        (λ v. none)
        (λ b. none)
        readings
        1
        payload
        "pupil"
        session.tables)
      handled
handle-IsGranted_example =
    handle-IsGranted (λ id. "2") (λ a. a) authorize (λ v. 6) 100 (λ v. none) (λ b. none) readings 1
      payload "pupil" world session

handle-HasOriginals_example : HasOriginals (handled.1).tables.events
handle-HasOriginals_example =
    handle-HasOriginals (λ id. "2") (λ a. a) authorize (λ v. 6) 100 (λ v. none) (λ b. none) readings
      1 payload "pupil" world session message-HasOriginals

handle-ok_example :
    (leb 100 6 ≡ false)
    × ((r : Room.Object String) × (t : ℤ) × (RoomQueries.find_room 1 session.tables.rooms ≡ some r)
        × IsSinceOpening r readings.occurred_at t
        × Creates
            (λ v. none)
            (λ b. none)
            1
            payload
            "pupil"
            t
            session.tables
            (handled.1).tables
            created)
unfolding handle ◌+ℤ◌ ◌-ℤ◌ event.Db.Session.statement event.Db.Room.Queries.find_room
    event.AdjustRoom.Invert.total_nanos
handle-ok_example =
    handle-ok (λ id. "2") (λ a. a) authorize (λ v. 6) 100 (λ v. none) (λ b. none) readings 1 payload
      "pupil" world session (handled.1) answer refl

-- One pixel, which is compacted to 5.
abbrev compacted_pixel : String → Option ℕ
compacted_pixel v = if str_eq v "pixel" then some 5 else none

abbrev drawing : CreatePayload String
drawing = record payload { kind = "draw"; set = none; label = none; content = "pixel" }

abbrev drawn : RawObject String ℕ
drawn = record message {
  id = 130;
  kind = "draw";
  set = "draw";
  label = none;
  content = none;
  binary_data = some 5;
  occurred_at = pos 19;
  created_by = "pupil";
  created_at = pos 33;
  original_occurred_at = pos 19;
  original_created_by = "pupil";
}

abbrev handled_drawing : Result (ErrorKind String) (Response String) × Session String ℕ
handled_drawing =
    handle (λ id. "2") (λ a. a) (λ q. ok tt) (λ v. 6) 100 compacted_pixel (λ b. some "pixel")
      readings 1 drawing "pupil" world session

handle-drawing_test : (handled_drawing.1).tables.events ≡ message ∷ drawn ∷ []
unfolding handle ◌+ℤ◌ ◌-ℤ◌ event.Db.Session.statement event.Db.Room.Queries.find_room
    event.AdjustRoom.Invert.total_nanos
handle-drawing_test = refl
