-- ===== src/Tests/Tasks.antt =====
-- Examples of the tasks that adjust rooms and commit editions.
use event.Base.{
  ◌+◌, ◌*◌, ℕ, ℤ, pos, negsuc, ◌+ℤ◌, ◌-ℤ◌, ◌*ℤ◌, ◌≡◌, refl, Bool, true, false, none, some, Option,
  String, List, [], ◌∷◌, ◌++◌, Result, ok, err, ◌==◌, arith,
}
use event.Base.Word.{wrap_i64}
use event.Db.Change
use event.Db.Event.Raw.{RawObject}
use event.Db.Room
use event.Db.Room.{minigroup}
use event.Db.Adjustment.{Segments}
use event.Db.Session.{Tables, World, Session}
use event.RoomTime.{Bound}
use event.Ranges.{Range}
use event.CommitEdition.Call as Commit
use event.CommitEdition.Call.Copies as Copies
use event.CommitEdition.Call.Steps.{IsCopyOf, HasRoom}
use event.AdjustRoom.Call as Adjust
use event.AdjustRoom.Call.Run as Run
use event.AdjustRoom.Call.Adjusted.{call-adjusted, SameBut}
use event.AdjustRoom.Call.Derived.{Records, AddsRooms}
use event.AdjustRoom.Call.Outcome as Outcome
use event.Tests.Values.{Value, text, object1, tree_json}

abbrev cut : ℕ → ℤ → String → RawObject Value ℕ
cut n t command = record {
  id = n;
  room_id = 1;
  kind = "stream";
  set = "stream";
  label = none;
  attribute = none;
  content = some (object1 "cut" (text command));
  binary_data = none;
  occurred_at = t;
  created_by = "web.agent";
  created_at = pos n;
  deleted_at = none;
  original_occurred_at = t;
  original_created_by = "web.agent";
  removed = false;
}

abbrev message : RawObject Value ℕ
message = record (cut 9 (pos 7000000) "") {
  kind = "message";
  set = "message";
  content = some (text "hello");
}

-- A room of ten milliseconds.
abbrev room : Room.Object Value
room = record {
  id = 1;
  audience = "school";
  source_room_id = none;
  time = (Bound.included (pos 0), Bound.excluded (pos 10000000));
  tags = none;
  created_at = pos 1;
  preserve_history = true;
  classroom_id = 2;
  locked_types = λ k. none;
  whiteboard_access = λ a. none;
  kind = minigroup;
}

abbrev tables : Tables Value ℕ
tables = record {
  rooms = room ∷ [];
  events = cut 5 (pos 2000000) "start" ∷ cut 6 (pos 5000000) "stop" ∷ message ∷ [];
  changes = [];
  adjustments = [];
}

abbrev session : Session Value ℕ
session = record { tables = tables; count = 0 }

-- Statement `n` fails; the ids are new.
abbrev world : ℕ → World
world n = record { fails = λ i. i == n; id = λ i k. 100 + 10 * i + k; now = λ i. pos (1000 + i) }

abbrev into_json : ℕ → Option Value
into_json b = none

abbrev commit_of : World → Result Commit.CallError (Room.Object Value × Segments) × Session Value ℕ
commit_of w = Commit.call ⦃j = tree_json⦄ into_json 0 room 3 (pos 0) w session

abbrev copy_of_room : Room.Object Value
copy_of_room = record room { id = 130; source_room_id = some 1; created_at = pos 1003 }

commit_test :
    (commit_of (world 90)).0
    ≡ ok (
      copy_of_room,
      (Bound.included (pos 0), Bound.excluded (pos 2))
          ∷ (Bound.included (pos 5), Bound.excluded (pos 10))
          ∷ [],
    )
unfolding Commit.call wrap_i64 ◌+ℤ◌ ◌-ℤ◌ ◌*ℤ◌ event.Db.Change.Queries.list_changes
    event.Db.Room.Queries.is_range event.Db.Room.Queries.new_query event.RoomTime.into_tuple
    event.Db.Room.Queries.inserted_room event.Base.Word.div_trunc
commit_test = refl

abbrev kept_segments : Segments
kept_segments =
    (Bound.included (pos 0), Bound.excluded (pos 2))
    ∷ (Bound.included (pos 5), Bound.excluded (pos 10))
    ∷ []

call-HasRoom_example :
    IsCopyOf room copy_of_room
    × HasRoom tables ((commit_of (world 90)).1).tables copy_of_room
    × Copies.AreSegments ⦃j = tree_json⦄ into_json 0 room 3 tables kept_segments
unfolding Commit.call wrap_i64 ◌+ℤ◌ ◌-ℤ◌ ◌*ℤ◌ event.Db.Change.Queries.list_changes
    event.Db.Room.Queries.is_range event.Db.Room.Queries.new_query event.RoomTime.into_tuple
    event.Db.Room.Queries.inserted_room event.Base.Word.div_trunc
call-HasRoom_example =
    Copies.call-HasRoom ⦃j = tree_json⦄ into_json 0 room 3 (pos 0) (world 90) session
      ((commit_of (world 90)).1) copy_of_room kept_segments refl

abbrev from_json : Value → Option ℕ
from_json v = none

-- A recording of six milliseconds from two milliseconds after the opening.
abbrev recorded : Segments
recorded = (Bound.included (pos 0), Bound.excluded (pos 6)) ∷ []

abbrev adjust_of :
    World → Session Value ℕ → Result Adjust.CallError (Adjust.AdjustOutput Value) × Session Value ℕ
adjust_of w s =
    Run.call ⦃j = tree_json⦄ from_json into_json 0 (pos 50) (pos 51) room (pos 2000000) recorded
      (pos 0) w s

-- The second run on the tables of the first.
abbrev adjusted : Session Value ℕ
adjusted = record session {
  tables = record tables {
    adjustments =
        record {
          room_id = 1;
          started_at = pos 0;
          segments = recorded;
          offset = pos 0;
          created_at = pos 0;
        }
        ∷ [];
  };
}

call-adjusted_example :
    (e : Adjust.CallError) × ((adjust_of (world 90) adjusted).0 ≡ err e)
    × SameBut adjusted.tables ((adjust_of (world 90) adjusted).1).tables
call-adjusted_example =
    call-adjusted ⦃j = tree_json⦄ from_json into_json 0 (pos 50) (pos 51) room (pos 2000000)
      recorded (pos 0) (world 90) adjusted refl

-- The cut of three milliseconds is at the start of the recording.
abbrev last_half : Segments
last_half = (Bound.included (pos 3), Bound.excluded (pos 6)) ∷ []

abbrev original_room : Room.Object Value
original_room = record room {
  id = 130;
  source_room_id = some 1;
  time = (Bound.included (pos 2000000), Bound.excluded (pos 8000000));
  created_at = pos 1003;
}

abbrev output : Adjust.AdjustOutput Value
output = record {
  original_room = original_room;
  modified_room = record original_room {
    id = 170;
    source_room_id = some 130;
    created_at = pos 1007;
  };
  modified_segments = last_half;
  cut_original_segments = last_half;
}

adjust_test : (adjust_of (world 90) session).0 ≡ ok output
unfolding Run.call wrap_i64 ◌+ℤ◌ ◌-ℤ◌ ◌*ℤ◌ event.Db.Change.Queries.list_changes
    event.Db.Room.Queries.is_range event.Db.Room.Queries.new_query event.RoomTime.into_tuple
    event.Db.Room.Queries.inserted_room event.Base.Word.div_trunc
adjust_test = refl

call-AddsRooms_example :
    (parsed : List Range) × (Adjust.parse_segments recorded ≡ ok parsed)
    × ((stop : ℤ) × (Adjust.finish parsed ≡ ok stop))
    × Records 1 (pos 2000000) recorded (pos 0) tables ((adjust_of (world 90) session).1).tables
    × AddsRooms room
        (pos 2000000)
        (Adjust.milliseconds (Adjust.total_millis (pos 0) parsed))
        output.original_room
        output.modified_room
        tables
        ((adjust_of (world 90) session).1).tables
unfolding Run.call wrap_i64 ◌+ℤ◌ ◌-ℤ◌ ◌*ℤ◌ event.Db.Change.Queries.list_changes
    event.Db.Room.Queries.is_range event.Db.Room.Queries.new_query event.RoomTime.into_tuple
    event.Db.Room.Queries.inserted_room event.Base.Word.div_trunc
call-AddsRooms_example =
    Outcome.call-AddsRooms ⦃j = tree_json⦄ from_json into_json 0 (pos 50) (pos 51) room
      (pos 2000000) recorded (pos 0) (world 90) session ((adjust_of (world 90) session).1) output
      refl
