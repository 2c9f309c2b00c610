-- ===== src/Endpoint/CreateEvent.antt =====
-- `CreateHandler` of `src/app/endpoint/event.rs`: the creation of an event, persistent or transient.
-- `authorize` is the client of the authorization service, `size` the length of a value as text,
-- `as_account_id` the account of an agent, `to_string` the text of an id.
pub mod Steps
pub mod Authorized
pub mod Stores
pub mod Effects
pub mod Created
use event.Base.{
  ℕ, ℤ, ◌-ℤ◌, leb, Bool, true, false, Option, none, some, List, [], ◌∷◌, ◌++◌, Result, ok, err,
  String, if◌then◌else◌,
}
use event.Db.{Uuid, AgentId, AccountId}
use event.Db.Event
use event.Db.Event.Insert.{InsertQuery, new_query}
use event.Db.Event.Queries.{original_event}
use event.Db.Event.Raw.{RawObject, DecodeError, from_raw}
use event.Db.Queries.{QueryError, insert_event}
use event.Db.Room
use event.Db.Session.{Tables, Session, World, Task, Statement, ◌>>=◌, done, bail, lift, statement}
use event.RoomTime.{DateTime, RoomTime, TimeError, try_from}
use event.AdjustRoom.Invert.{total_nanos}
use event.Endpoint.Helpers.{
  ErrorKind, db_query_failed, invalid_room_time, payload_size_exceeded, invalid_event,
  not_authorized, «open», find_room, get_conn,
}

pub record CreatePayload (V : Type 0) : Type 0 where
  pub kind : String
  pub set : Option String
  pub label : Option String
  pub attribute : Option String
  pub content : V  -- `data`
  pub is_claim : Bool
  pub is_persistent : Bool
  pub removed : Bool

-- The arguments of `authorize`.
pub record AuthzRequest : Type 0 where
  pub audience : String
  pub account_id : AccountId
  pub object : List String
  pub action : String

-- What the handler reads of the clock, in this order, and the id of a transient event.
pub record Readings : Type 0 where
  pub found_at : DateTime
  pub occurred_at : DateTime
  pub built_at : DateTime
  pub id : Uuid

-- `add_notification`, of an event or of a claim with its classroom.
pub data Notification (V : Type 0) : Type 0 where
  claim_notification : List String → Event.Object V → Uuid → Notification V
  event_notification : List String → Event.Object V → Notification V

pub record Response (V : Type 0) : Type 0 where
  pub body : Event.Object V
  pub notifications : List (Notification V)

abbrev pub or_default : {A : Type 0} → Option A → A → A
or_default none a = a
or_default (some b) a = b

-- `key`.
abbrev pub authz_key : Option String → Bool → String
authz_key (some attribute) is_claim = attribute
authz_key none is_claim = if is_claim then "claims" else "events"

module _ {V : Type 0} (to_string : Uuid → String) where
  -- `Object::authz_object`.
  abbrev pub authz_object : Room.Object V → List String
  authz_object room = "classrooms" ∷ to_string room.classroom_id ∷ []

  -- The object and the action that are authorized.
  unfoldable pub authz_request :
      Room.Object V → CreatePayload V → AccountId → AccountId → AuthzRequest
  unfolding Room.event_should_authz_room_update
  authz_request room payload account_id author =
      if Room.event_should_authz_room_update room payload.kind account_id
      then record {
        audience = room.audience;
        account_id = account_id;
        object = authz_object room;
        action = "update";
      }
      else record {
        audience = room.audience;
        account_id = account_id;
        object =
            authz_object room
            ++ authz_key payload.attribute payload.is_claim
              ∷ payload.kind
              ∷ "authors"
              ∷ author
              ∷ [];
        action = "create";
      }

  -- The notifications, the claim's ahead of the event's.
  unfoldable pub response : Room.Object V → Bool → Event.Object V → Response V
  response room is_claim event = record {
    body = event;
    notifications =
        (if is_claim
          then claim_notification ("audiences" ∷ room.audience ∷ "events" ∷ []) event
              room.classroom_id
            ∷ []
          else [])
        ++ event_notification ("rooms" ∷ to_string room.id ∷ "events" ∷ []) event ∷ [];
  }

-- `occurred_at`, from the opening of the room.
abbrev pub since_opening :
    {X : Type 0} → DateTime → Result {0} TimeError RoomTime → Result {0} (ErrorKind X) ℤ
since_opening now (ok time) = ok (total_nanos (now -ℤ time.start))
since_opening now (err e) = err invalid_room_time

abbrev pub account_or :
    {V : Type 0} → (AgentId → AccountId) → AccountId → Option (Event.Object V) → AccountId
account_or as_account_id account_id none = account_id
account_or as_account_id account_id (some event) = as_account_id event.created_by

-- The query with the setters of the handler.
abbrev pub with_payload : {V B : Type 0} → CreatePayload V → InsertQuery V B → InsertQuery V B
with_payload payload q = record q {
  set = or_default payload.set q.set;
  label = payload.label;
  attribute = payload.attribute;
  removed = payload.removed;
}

module _ {X V B : Type 0} where
  -- The row that a query may find, as an event.
  abbrev pub decode_found :
      (B → Option V) → Option (RawObject V B) → Result {0} (ErrorKind X) (Option (Event.Object V))
  decode_found into_json none = ok none
  decode_found into_json (some raw) = elim (from_raw into_json raw) [
    | ok event ↦ ok (some event)
    | err e ↦ err db_query_failed
  ]

  abbrev pub with_tables :
      {A : Type 0}
      → Tables V B
      → Result {0} (ErrorKind X) A
      → Result {0} (ErrorKind X) (A × Tables V B)
  with_tables t (ok a) = ok (a, t)
  with_tables t (err e) = err e

  -- `OriginalEventQuery::execute`.
  unfoldable pub find_original :
      (B → Option V) → Uuid → String → String → Task (ErrorKind X) V B (Option (Event.Object V))
  unfolding original_event from_raw
  find_original into_json room_id set label = statement db_query_failed (λ ids now t.
      with_tables t (decode_found into_json (original_event room_id set label t.events)))

  -- `author`: of the original event of the label, or the current account.
  unfoldable pub author_of :
      (AgentId → AccountId)
      → (B → Option V)
      → Uuid
      → Option String
      → Option String
      → AccountId
      → Task (ErrorKind X) V B AccountId
  unfolding get_conn find_original
  author_of as_account_id into_json room_id (some set) (some label) account_id = get_conn >>= λ _.
      find_original into_json room_id set label >>= λ original.
      done (account_or as_account_id account_id original)
  author_of as_account_id into_json room_id (some set) none account_id = done account_id
  author_of as_account_id into_json room_id none label account_id = done account_id

  abbrev pub insert_built :
      (B → Option V)
      → CreatePayload V
      → Option (InsertQuery V B)
      → Task (ErrorKind X) V B (Event.Object V)
  insert_built into_json payload none = bail invalid_event
  insert_built into_json payload (some q) =
      get_conn >>= λ _. insert_event (λ e. db_query_failed) into_json (with_payload payload q)

-- What `Builder` builds of the payload; it leaves out `removed`.
unfoldable pub transient_event :
    {V : Type 0} → Readings → Uuid → CreatePayload V → ℤ → AgentId → Event.Object V
transient_event readings room_id payload occurred_at agent_id = record {
  id = readings.id;
  room_id = room_id;
  kind = payload.kind;
  set = or_default payload.set payload.kind;
  label = payload.label;
  attribute = payload.attribute;
  content = payload.content;
  occurred_at = occurred_at;
  created_by = agent_id;
  created_at = readings.built_at;
  deleted_at = none;
  original_occurred_at = occurred_at;
  original_created_by = agent_id;
  removed = false;
}

abbrev pub wrap_authz : {X : Type 0} → Result {0} X Unit → Result {0} (ErrorKind X) Unit
wrap_authz (ok u) = ok u
wrap_authz (err e) = err (not_authorized e)

module _ {X V B : Type 0} (to_string : Uuid → String) (as_account_id : AgentId → AccountId)
    (authorize : AuthzRequest → Result {0} X Unit) (size : V → ℕ) (payload_size : ℕ)
    (from_json : V → Option B) (into_json : B → Option V) where
  -- The event, stored or built.
  unfoldable pub create_event :
      Readings
      → Uuid
      → Room.Object V
      → CreatePayload V
      → AgentId
      → ℤ
      → Task (ErrorKind X) V B (Event.Object V)
  unfolding new_query get_conn insert_event transient_event
  create_event readings room_id room payload agent_id occurred_at = elim payload.is_persistent [
    | true ↦
        insert_built into_json payload
          (new_query from_json room.id payload.kind payload.content occurred_at agent_id)
    | false ↦ done (transient_event readings room_id payload occurred_at agent_id)
  ]

  -- What follows the authorization.
  unfoldable pub create_authorized :
      Readings
      → Uuid
      → Room.Object V
      → CreatePayload V
      → AgentId
      → Task (ErrorKind X) V B (Event.Object V)
  unfolding try_from create_event
  create_authorized readings room_id room payload agent_id =
      lift (since_opening readings.occurred_at (try_from room.time)) >>= λ occurred_at.
      lift (if leb payload_size (size payload.content) then err payload_size_exceeded else ok tt)
      >>= λ _. create_event readings room_id room payload agent_id occurred_at

  -- `handle`.
  unfoldable pub handle :
      Readings → Uuid → CreatePayload V → AgentId → Task (ErrorKind X) V B (Response V)
  unfolding find_room author_of authz_request create_authorized response
  handle readings room_id payload agent_id = find_room room_id «open» readings.found_at >>= λ room.
      author_of as_account_id into_json room.id payload.set payload.label (as_account_id agent_id)
      >>= λ author.
          lift (
            wrap_authz
              (authorize (authz_request to_string room payload (as_account_id agent_id) author)))
          >>= λ _. create_authorized readings room_id room payload agent_id >>= λ event.
              done (response to_string room payload.is_claim event)
