-- ===== src/Endpoint/Rooms/Handlers.antt =====
-- The functions `handle` of `src/app/endpoint/room.rs`.
use event.Base.{Bool, not, Option, [], ◌∷◌, Result, String}
use event.Db.{Uuid, AccountId}
use event.Db.Room
use event.Db.Room.Queries as RoomQueries
use event.Db.Queries.{insert_room, update_room}
use event.Db.Session.{Task, ◌>>=◌, done, lift, atomically}
use event.RoomTime.{DateTime, new}
use event.Endpoint.Helpers.{ErrorKind, any, db_query_failed, find_room, get_conn}
use event.Endpoint.CreateEvent.{AuthzRequest, wrap_authz}
use event.Endpoint.Rooms.{
  CreatePayload, UpdatePayload, Response, Readings, room_notification, answer, audience_events,
  room_events, update_notifications, create_query, update_query, locks_query, access_query,
  time_requirement, new_time, room_request, create_request, valid_time, checks_access,
}

module _ {X V B : Type 0} (to_string : Uuid → String)
    (authorize : AuthzRequest → Result {0} X Unit) where
  -- `authorize`.
  unfoldable pub allowed : AuthzRequest → Task (ErrorKind X) V B Unit
  allowed request = lift (wrap_authz (authorize request))

  -- `CreateHandler::handle`.
  unfoldable pub create : CreatePayload V → AccountId → Task (ErrorKind X) V B (Response V)
  unfolding allowed create_request get_conn insert_room create_query new
  create payload account_id = lift (valid_time payload.time) >>= λ _.
      allowed (create_request payload.audience account_id) >>= λ _. get_conn >>= λ _.
      insert_room (λ e. db_query_failed) (create_query payload) >>= λ room.
      done
        (answer room (room_notification "room.create" (audience_events payload.audience) room ∷ []))

  -- `ReadHandler::handle`.
  unfoldable pub read : DateTime → Uuid → AccountId → Task (ErrorKind X) V B (Response V)
  unfolding allowed room_request find_room
  read now id account_id = find_room id any now >>= λ room.
      allowed (room_request to_string room "read" account_id) >>= λ _. done (answer room [])

  -- What follows the authorization in `UpdateHandler::handle`.
  unfoldable pub update_authorized :
      Readings → Room.Object V → UpdatePayload V → Task (ErrorKind X) V B (Response V)
  unfolding new_time Room.is_closed get_conn update_room update_query update_notifications
  update_authorized readings room payload =
      lift (new_time readings.updated_at room.time payload.time) >>= λ time. get_conn >>= λ _.
      update_room (λ e. db_query_failed) (update_query room.id time payload) >>= λ updated. done (
        update_notifications to_string (not (Room.is_closed readings.checked_at room.time))
          readings.ended_at payload.time updated)

  -- `UpdateHandler::handle`.
  unfoldable pub update :
      Readings → Uuid → UpdatePayload V → AccountId → Task (ErrorKind X) V B (Response V)
  unfolding allowed room_request find_room update_authorized
  update readings id payload account_id =
      find_room id (time_requirement payload.time) readings.found_at >>= λ room.
      allowed (room_request to_string room "update" account_id) >>= λ _.
      update_authorized readings room payload

  -- The update of a room in a transaction, and the answer.
  unfoldable pub write :
      (Room.Object V → RoomQueries.UpdateQuery V)
      → Room.Object V
      → Task (ErrorKind X) V B (Response V)
  unfolding get_conn update_room atomically
  write query room = get_conn >>= λ _.
      atomically db_query_failed (update_room (λ e. db_query_failed) (query room)) >>= λ room.
      done (answer room (room_notification "room.update" (room_events to_string room.id) room ∷ []))

  -- `LockedTypesHandler::handle`.
  unfoldable pub locked_types :
      DateTime → Uuid → (String → Option Bool) → AccountId → Task (ErrorKind X) V B (Response V)
  unfolding allowed room_request find_room write locks_query
  locked_types now id locks account_id = find_room id any now >>= λ room.
      allowed (room_request to_string room "update" account_id) >>= λ _.
      write (λ room. locks_query room locks) room

  -- `WhiteboardAccessHandler::handle`.
  unfoldable pub whiteboard_access :
      DateTime → Uuid → (AccountId → Option Bool) → AccountId → Task (ErrorKind X) V B (Response V)
  unfolding allowed room_request find_room write access_query Room.validate_whiteboard_access
  whiteboard_access now id accesses account_id = find_room id any now >>= λ room.
      lift (checks_access room) >>= λ _.
      allowed (room_request to_string room "update" account_id) >>= λ _.
      write (λ room. access_query room accesses) room
