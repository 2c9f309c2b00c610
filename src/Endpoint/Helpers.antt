-- ===== src/Endpoint/Helpers.antt =====
-- `find_room` of `src/app/endpoint/helpers.rs`, and the errors of `src/app/error.rs` that the modelled
-- handlers return.
pub mod Found
use event.Base.{Option, none, some, Result, ok, err, if◌then◌else◌}
use event.Db.{Uuid}
use event.Db.Room
use event.Db.Room.Queries as RoomQueries
use event.Db.Session.{Task, ◌>>=◌, lift, commit, statement}
use event.RoomTime.{DateTime}

-- `ErrorKind`, with the kind of the authorization's own error left open.
pub data ErrorKind (X : Type 0) : Type 0 where
  db_conn_acquisition_failed db_query_failed room_not_found room_closed : ErrorKind X
  invalid_room_time payload_size_exceeded invalid_event invalid_state_sets : ErrorKind X
  whiteboard_access_update_not_checked : ErrorKind X
  not_authorized : X → ErrorKind X

pub data RoomTimeRequirement : Type 0 where
  any not_closed «open» : RoomTimeRequirement

module _ {X V : Type 0} where
  -- The `match` on the requirement.
  unfoldable pub required :
      RoomTimeRequirement → DateTime → Room.Object V → Result (ErrorKind X) (Room.Object V)
  unfolding Room.is_closed Room.is_open
  required any now room = ok room
  required not_closed now room = if Room.is_closed now room.time then err room_closed else ok room
  required «open» now room = if Room.is_open now room.time then ok room else err room_closed

  abbrev pub found_room :
      RoomTimeRequirement → DateTime → Option (Room.Object V) → Result (ErrorKind X) (Room.Object V)
  found_room requirement now none = err room_not_found
  found_room requirement now (some room) = required requirement now room

module _ {X V B : Type 0} where
  -- `get_conn` and `get_ro_conn`.
  unfoldable pub get_conn : Task (ErrorKind X) V B Unit
  get_conn = statement db_conn_acquisition_failed (commit tt)

  -- `find_room`; `now` is what the check of the requirement reads of the clock.
  unfoldable pub find_room :
      Uuid → RoomTimeRequirement → DateTime → Task (ErrorKind X) V B (Room.Object V)
  unfolding required get_conn
  find_room id requirement now = get_conn >>= λ _.
      statement db_query_failed (λ ids now t. ok (RoomQueries.find_room id t.rooms, t)) >>= λ room.
      lift (found_room requirement now room)
