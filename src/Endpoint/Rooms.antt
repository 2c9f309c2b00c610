-- ===== src/Endpoint/Rooms.antt =====
-- The handlers of `src/app/endpoint/room.rs` that create, read and update rooms. `authorize` is the
-- client of the authorization service, `to_string` the text of an id.
pub mod Handlers
pub mod Changed
pub mod Closing
pub mod Updating
pub mod Times
pub mod Locks
pub mod Locked
pub mod Succeeding
use event.Base.{
  ltb_ℤ, leb_ℤ, Bool, true, false, ◌&&◌, not, Option, none, some, List, [], ◌∷◌, ◌++◌, Result, ok,
  err, String, if◌then◌else◌,
}
use event.Db.{Uuid, AccountId}
use event.Db.Room
use event.Db.Room.Queries as RoomQueries
use event.Db.Queries.{insert_room, update_room}
use event.Db.Session.{Task, ◌>>=◌, done, lift, atomically}
use event.RoomTime
use event.RoomTime.{DateTime, Bound, BoundedDateTimeTuple, try_from, update, into_tuple}
use event.Endpoint.Helpers.{
  ErrorKind, RoomTimeRequirement, any, not_closed, db_query_failed, invalid_room_time,
  whiteboard_access_update_not_checked, find_room, get_conn,
}
use event.Endpoint.CreateEvent.{AuthzRequest, authz_object, wrap_authz, or_default}

pub record CreatePayload (V : Type 0) : Type 0 where
  pub audience : String
  pub time : BoundedDateTimeTuple
  pub tags : Option V
  pub preserve_history : Option Bool
  pub classroom_id : Uuid
  pub kind : Room.ClassType

pub record UpdatePayload (V : Type 0) : Type 0 where
  pub time : Option BoundedDateTimeTuple
  pub tags : Option V
  pub classroom_id : Option Uuid

-- `add_notification`, of a room.
pub record Notification (V : Type 0) : Type 0 where
  pub label : String
  pub path : List String
  pub room : Room.Object V

pub record Response (V : Type 0) : Type 0 where
  pub body : Room.Object V
  pub notifications : List (Notification V)

-- What `UpdateHandler` reads of the clock, in this order.
pub record Readings : Type 0 where
  pub found_at : DateTime
  pub updated_at : DateTime
  pub checked_at : DateTime
  pub ended_at : DateTime

-- `audiences/{}/events` and `rooms/{}/events`.
abbrev pub audience_events : String → List String
audience_events audience = "audiences" ∷ audience ∷ "events" ∷ []

abbrev pub room_events : (Uuid → String) → Uuid → List String
room_events to_string id = "rooms" ∷ to_string id ∷ "events" ∷ []

-- The maps of the handlers, where the payload's entries come later.
abbrev pub chain : {K : Type 0} → (K → Option Bool) → (K → Option Bool) → K → Option Bool
chain old new k = elim (new k) [ none ↦ old k | some b ↦ some b ]

module _ {V : Type 0} where
  abbrev pub room_notification : String → List String → Room.Object V → Notification V
  room_notification label path room = record { label = label; path = path; room = room }

  abbrev pub answer : Room.Object V → List (Notification V) → Response V
  answer room notifications = record { body = room; notifications = notifications }

  -- The query of `CreateHandler`.
  unfoldable pub create_query : CreatePayload V → RoomQueries.InsertQuery V
  unfolding RoomQueries.new_query
  create_query payload =
      let q =
        RoomQueries.new_query payload.audience payload.time payload.classroom_id payload.kind in
      record q {
        tags = payload.tags;
        preserve_history = or_default payload.preserve_history q.preserve_history;
      }

  -- The query of `UpdateHandler`.
  unfoldable pub update_query :
      Uuid → Option BoundedDateTimeTuple → UpdatePayload V → RoomQueries.UpdateQuery V
  unfolding RoomQueries.update_of
  update_query id time payload = record (RoomQueries.update_of {V = V} id) {
    time = time;
    tags = payload.tags;
    classroom_id = payload.classroom_id;
  }

  unfoldable pub locks_query : Room.Object V → (String → Option Bool) → RoomQueries.UpdateQuery V
  unfolding RoomQueries.update_of
  locks_query room locked_types = record (RoomQueries.update_of {V = V} room.id) {
    locked_types = some (chain room.locked_types locked_types);
  }

  unfoldable pub access_query :
      Room.Object V → (AccountId → Option Bool) → RoomQueries.UpdateQuery V
  unfolding RoomQueries.update_of
  access_query room whiteboard_access = record (RoomQueries.update_of {V = V} room.id) {
    whiteboard_access = some (chain room.whiteboard_access whiteboard_access);
  }

-- `time_requirement`: the time of a closed room is not changed.
abbrev pub time_requirement : Option BoundedDateTimeTuple → RoomTimeRequirement
time_requirement none = any
time_requirement (some time) = not_closed

abbrev pub valid_or_error :
    {X : Type 0} → Option RoomTime.RoomTime → Result {0} (ErrorKind X) (Option BoundedDateTimeTuple)
valid_or_error none = err invalid_room_time
valid_or_error (some time) = ok (some (into_tuple time))

abbrev pub updated_or_error :
    {X : Type 0}
    → DateTime
    → BoundedDateTimeTuple
    → Result {0} RoomTime.TimeError RoomTime.RoomTime
    → Result {0} (ErrorKind X) (Option BoundedDateTimeTuple)
updated_or_error now asked (ok time) = valid_or_error (update now time asked)
updated_or_error now asked (err e) = err invalid_room_time

-- The validation of the time that is asked for.
unfoldable pub new_time :
    {X : Type 0}
    → DateTime
    → BoundedDateTimeTuple
    → Option BoundedDateTimeTuple
    → Result {0} (ErrorKind X) (Option BoundedDateTimeTuple)
unfolding try_from update into_tuple
new_time now old none = ok none
new_time now old (some asked) = updated_or_error now asked (try_from old)

-- The `match` on the end that was asked for.
unfoldable pub ends_by : DateTime → Option BoundedDateTimeTuple → Bool
ends_by now none = false
ends_by now (some (_, Bound.included t)) = ltb_ℤ t now
ends_by now (some (_, Bound.excluded t)) = leb_ℤ t now
ends_by now (some (_, Bound.unbounded)) = false

-- What is authorized on a room: `AuthzObject::room` and an action.
unfoldable pub room_request :
    {V : Type 0} → (Uuid → String) → Room.Object V → String → AccountId → AuthzRequest
room_request to_string room action account_id = record {
  audience = room.audience;
  account_id = account_id;
  object = authz_object to_string room;
  action = action;
}

-- What `CreateHandler` authorizes.
unfoldable pub create_request : String → AccountId → AuthzRequest
create_request audience account_id = record {
  audience = audience;
  account_id = account_id;
  object = "classrooms" ∷ [];
  action = "create";
}

abbrev pub valid_time : {X : Type 0} → BoundedDateTimeTuple → Result {0} (ErrorKind X) Unit
valid_time time = elim (RoomTime.new time) [ none ↦ err invalid_room_time | some t ↦ ok tt ]

-- The check of `WhiteboardAccessHandler`.
abbrev pub checks_access : {X V : Type 0} → Room.Object V → Result {0} (ErrorKind X) Unit
checks_access room =
    if Room.validate_whiteboard_access room then ok tt else err whiteboard_access_update_not_checked

-- The notifications of `UpdateHandler`; the second is for a room that the update closes.
unfoldable pub update_notifications :
    {V : Type 0}
    → (Uuid → String)
    → Bool
    → DateTime
    → Option BoundedDateTimeTuple
    → Room.Object V
    → Response V
unfolding ends_by
update_notifications to_string room_was_open now asked room = answer room (
    room_notification "room.update" (audience_events room.audience) room
    ∷ (if room_was_open && ends_by now asked
        then room_notification "room.close" (room_events to_string room.id) room ∷ []
        else []))
