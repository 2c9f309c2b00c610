-- ===== src/Tests/States.antt =====
-- Examples of the states of sets, and of lists of events.
use event.Base.{
  ℕ, ℤ, pos, ◌-ℤ◌, ◌≤◌, ◌≡◌, ◌⊎◌, inl, refl, ap, ◌&&◌, not, str_eq, true, false, none, some, String,
  List, [], ◌∷◌, ◌*◌, ◌+◌, Bool, if◌then◌else◌, In, All, Result, ok, err, arith, length,
}
use event.Db.Event
use event.Db.Event.Queries.{forward, matches, from_rows}
use event.Db.Event.Raw.{RawObject}
use event.Db.Event.SetState.{Query, state_rows, same_key}
use event.Db.Event.SetState.Latest.{IsSeen, IsLatest, state_rows-IsLatest}
use event.Db.Event.SetState.Attribute.{IsLatestOfLabel, state_rows-IsLatestOfLabel}
use event.Db.Room
use event.Db.Room.{minigroup}
use event.Db.Room.Queries as RoomQueries
use event.Db.Rows.Order.{IsOrder}
use event.Db.Session.{Tables, World, Session}
use event.RoomTime.{Bound}
use event.Endpoint.CreateEvent.{AuthzRequest, or_default}
use event.Endpoint.Helpers.{ErrorKind}
use event.Endpoint.ListEvents as ListEvents
use event.Endpoint.ListEvents.{list_query}
use event.Endpoint.ListEvents.Listed.{handle-Lists_rows}
use event.Endpoint.ReadState.{ReadPayload, State, flag, collection, read_request, handle}
use event.Endpoint.ReadState.Answer.{IsBounded, handle-IsBounded}

abbrev pub drawn : RawObject String ℕ
drawn = record {
  id = 1;
  room_id = 1;
  kind = "shape";
  set = "page";
  label = some "a";
  attribute = none;
  content = some "line";
  binary_data = none;
  occurred_at = pos 5;
  created_by = "teacher";
  created_at = pos 20;
  deleted_at = none;
  original_occurred_at = pos 5;
  original_created_by = "teacher";
  removed = false;
}

-- The same drawing, pinned later.
abbrev pub pinned : RawObject String ℕ
pinned = record drawn {
  id = 2;
  attribute = some "pinned";
  occurred_at = pos 9;
  created_at = pos 30;
}

abbrev pub other : RawObject String ℕ
other = record drawn {
  id = 3;
  label = some "b";
  occurred_at = pos 7;
  created_at = pos 25;
  original_occurred_at = pos 7;
}

abbrev pub events : List (RawObject String ℕ)
events = drawn ∷ pinned ∷ other ∷ []

abbrev pub query : Query
query = record {
  room_id = 1;
  set = "page";
  attribute = none;
  occurred_at = none;
  original_occurred_at = pos 100;
  limit = pos 1;
}

abbrev pinned_query : Query
pinned_query = record query { attribute = some "pinned" }

-- "a" comes before all else.
abbrev pub a_first : String → String → Bool
a_first l m = str_eq l "a" && not (str_eq m "a")

a_first-IsOrder : IsOrder a_first
a_first-IsOrder = record { asym = λ x y h. ground arith; co_trans = λ x y z h k. ground arith }

state_rows_test : state_rows a_first query events ≡ other ∷ pinned ∷ []
unfolding state_rows
state_rows_test = refl

pinned_rows_test : state_rows a_first pinned_query events ≡ pinned ∷ []
unfolding state_rows
pinned_rows_test = refl

state_rows-IsLatest_example :
    All
      (λ e. IsSeen query events e × (e.removed ≡ false) × IsLatest query events e)
      (state_rows a_first query events)
    × ((e : RawObject String ℕ) × (same_key e drawn ≡ true)
        × IsSeen query events e
        × IsLatest query events e
        × ((e.removed ≡ true) ⊎ In e (state_rows a_first query events)))
unfolding event.Db.Event.SetState.is_visible
state_rows-IsLatest_example =
    state_rows-IsLatest a_first-IsOrder query events drawn refl (inl refl, refl)

state_rows-IsLatestOfLabel_example :
    All
      (λ e.
        IsSeen pinned_query events e
        × (e.attribute ≡ some "pinned")
        × (e.removed ≡ false)
        × IsLatestOfLabel pinned_query events e)
      (state_rows a_first pinned_query events)
state_rows-IsLatestOfLabel_example =
    state_rows-IsLatestOfLabel a_first pinned_query events "pinned" refl

abbrev pub room : Room.Object String
room = record {
  id = 1;
  audience = "school";
  source_room_id = none;
  time = (Bound.included (pos 12), Bound.excluded (pos 400));
  tags = none;
  created_at = pos 1;
  preserve_history = false;
  classroom_id = 2;
  locked_types = λ k. none;
  whiteboard_access = λ a. none;
  kind = minigroup;
}

abbrev session : Session String ℕ
session = record {
  tables = record { rooms = room ∷ []; events = events; changes = []; adjustments = [] };
  count = 0;
}

abbrev world : World
world = record { fails = λ i. false; id = λ i k. 100 + 10 * i + k; now = λ i. pos (30 + i) }

abbrev payload : ReadPayload
payload = record {
  sets = "page" ∷ [];
  attribute = none;
  occurred_at = none;
  original_occurred_at = none;
  limit = some (pos 1);
}

-- Only reading is granted.
abbrev authorize : AuthzRequest → Result {0} String Unit
authorize q = if str_eq q.action "read" then ok tt else err "denied"

abbrev handled : Result (ErrorKind String) (State String) × Session String ℕ
handled = handle a_first (λ b. none) (λ id. "2") authorize (pos 30) 1 payload "pupil" world session

abbrev shown : Event.Object String
shown = record {
  id = 3;
  room_id = 1;
  kind = "shape";
  set = "page";
  label = some "b";
  attribute = none;
  content = "line";
  occurred_at = pos 7;
  created_by = "teacher";
  created_at = pos 25;
  deleted_at = none;
  original_occurred_at = pos 7;
  original_created_by = "teacher";
  removed = false;
}

abbrev answer : State String
answer = ("has_next", flag true) ∷ ("page", collection (shown ∷ [])) ∷ []

handle_test : handled.0 ≡ ok answer
unfolding handle event.Db.Session.statement RoomQueries.find_room from_rows ◌-ℤ◌
    event.Base.Word.wrap_i64 event.Base.◌+ℤ◌
handle_test = refl

handle-IsBounded_example : IsBounded answer
unfolding handle event.Db.Session.statement RoomQueries.find_room from_rows ◌-ℤ◌
    event.Base.Word.wrap_i64 event.Base.◌+ℤ◌
handle-IsBounded_example =
    handle-IsBounded a_first (λ b. none) (λ id. "2") authorize (pos 30) 1 payload "pupil" world
      session (handled.1) answer refl

abbrev list_payload : ListEvents.ListPayload
list_payload = record {
  kind = none;
  set = some "page";
  label = none;
  attribute = none;
  last_occurred_at = some (pos 6);
  direction = forward;
  limit = some 1;
}

handle-Lists_rows_example :
    (session.tables ≡ session.tables)
    × ((found : Room.Object String) × (RoomQueries.find_room 1 session.tables.rooms ≡ some found)
        × (authorize (read_request (λ id. "2") found "pupil") ≡ ok tt))
    × (1 ≤ 100)
    × (1 ≤ or_default list_payload.limit 100)
    × ((rows : List (RawObject String ℕ)) × (from_rows (λ b. none) rows ≡ ok (shown ∷ []))
        × All (λ e. matches (list_query 1 list_payload) e ≡ true) rows)
unfolding ListEvents.handle event.Db.Session.statement RoomQueries.find_room from_rows
handle-Lists_rows_example =
    handle-Lists_rows (λ id. "2") authorize (λ b. none) (pos 30) 1 list_payload "pupil" world
      session
      ((ListEvents.handle (λ id. "2") authorize (λ b. none) (pos 30) 1 list_payload "pupil" world
        session).1)
      (shown ∷ []) refl
