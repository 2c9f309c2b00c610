-- ===== src/Endpoint/ListEvents.antt =====
-- `ListHandler` of `src/app/endpoint/event.rs`: the events of a room.
pub mod Listed
use event.Base.{ℕ, ℤ, ltb, Option, none, some, List, Result, ok, err, String, if◌then◌else◌}
use event.Db.{Uuid, AccountId}
use event.Db.Event
use event.Db.Event.Queries.{KindFilter, Direction, ListQuery, list_of_room}
use event.Db.Queries.{events_of}
use event.Db.Session.{Task, ◌>>=◌, lift}
use event.RoomTime.{DateTime}
use event.Endpoint.Helpers.{ErrorKind, any, db_query_failed, find_room, get_conn}
use event.Endpoint.CreateEvent.{AuthzRequest, wrap_authz, or_default}
use event.Endpoint.ReadState.{read_request}

abbrev pub max_limit : ℕ
max_limit = 100

-- `ListTypesFilter` is the filter on kinds.
pub record ListPayload : Type 0 where
  pub kind : Option KindFilter
  pub set : Option String
  pub label : Option String
  pub attribute : Option String
  pub last_occurred_at : Option ℤ
  pub direction : Direction
  pub limit : Option ℕ

-- `cmp::min`.
abbrev pub min : ℕ → ℕ → ℕ
min a b = if ltb b a then b else a

-- The query with the setters of the handler.
unfoldable pub list_query : Uuid → ListPayload → ListQuery
list_query room_id payload = record (list_of_room room_id) {
  kind = payload.kind;
  set = payload.set;
  label = payload.label;
  attribute = payload.attribute;
  last_occurred_at = payload.last_occurred_at;
  direction = payload.direction;
  limit = some (min (or_default payload.limit max_limit) max_limit);
}

module _ {X V B : Type 0} (to_string : Uuid → String) (authorize : AuthzRequest → Result {0} X Unit)
    (into_json : B → Option V) where
  -- `handle`; the body of the response. What is authorized is as for the state.
  unfoldable pub handle :
      DateTime → Uuid → ListPayload → AccountId → Task (ErrorKind X) V B (List (Event.Object V))
  unfolding find_room read_request get_conn events_of list_query
  handle now room_id payload account_id = find_room room_id any now >>= λ room.
      lift (wrap_authz (authorize (read_request to_string room account_id))) >>= λ _.
      get_conn >>= λ _. events_of (λ e. db_query_failed) into_json (list_query room.id payload)
