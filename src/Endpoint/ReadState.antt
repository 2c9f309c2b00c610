-- ===== src/Endpoint/ReadState.antt =====
-- `ReadHandler` of `src/app/endpoint/state.rs`: the state of the sets of a room.
pub mod Fields
pub mod Answer
pub mod HasNext
pub mod Refused
pub mod Page
use event.Base.{
  ℕ, ℤ, pos, ◌-ℤ◌, ◌+ℤ◌, ltb, ltb_ℤ, min_ℤ, ◌==◌, Bool, true, false, Option, none, some, is_none,
  List, [], ◌∷◌, Result, ok, err, String, str_eq, if◌then◌else◌, length,
}
use event.Base.Word.{i64_max, fits_i64, wrap_i64}
use event.Db.{Uuid, AccountId}
use event.Db.Event
use event.Db.Event.SetState.{
  Query, new_query, with_attribute, with_occurred_at, execute, total_count,
}
use event.Db.Room
use event.Db.Session.{Task, ◌>>=◌, done, bail, lift}
use event.RoomTime.{DateTime, RoomTimeBound, RoomTime, TimeError, try_from}
use event.Endpoint.Helpers.{
  ErrorKind, db_query_failed, invalid_room_time, invalid_state_sets, any, find_room, get_conn,
}
use event.Endpoint.CreateEvent.{AuthzRequest, authz_object, wrap_authz, or_default}

abbrev pub max_sets : ℕ
max_sets = 10

abbrev pub max_limit_per_set : ℤ
max_limit_per_set = pos 100

pub record ReadPayload : Type 0 where
  pub sets : List String
  pub attribute : Option String
  pub occurred_at : Option ℤ
  pub original_occurred_at : Option ℤ
  pub limit : Option ℤ

-- The values of the map `state`: the flag `has_next`, a simple set, or a collection.
pub data StateValue (V : Type 0) : Type 0 where
  flag : Bool → StateValue V
  single : Event.Object V → StateValue V
  collection : List (Event.Object V) → StateValue V

abbrev pub State : Type 0 → Type 0
State V = List (String × StateValue V)

-- The validation of the parameters.
unfoldable pub validate : {X : Type 0} → List String → Result {0} (ErrorKind X) Unit
validate sets =
    if length sets == 0
    then err invalid_state_sets
    else if ltb max_sets (length sets)
    then err invalid_state_sets
    else ok tt

unfoldable pub choose_limit : Option ℤ → ℤ
choose_limit limit = min_ℤ (or_default limit max_limit_per_set) max_limit_per_set

-- The length of the room, and one nanosecond; the sum is that of an `i64`.
abbrev pub past_close : ℤ → ℤ
past_close d = if fits_i64 d then wrap_i64 (d +ℤ pos 1) else i64_max

abbrev pub end_of_time : RoomTime → ℤ
end_of_time time = elim time.end [
  | RoomTimeBound.unbounded ↦ i64_max
  | RoomTimeBound.excluded close ↦ past_close (close -ℤ time.start)
]

-- `original_occurred_at`.
unfoldable pub up_to :
    {X : Type 0} → Option ℤ → Result {0} TimeError RoomTime → Result {0} (ErrorKind X) ℤ
up_to (some t) time = ok t
up_to none (ok time) = ok (end_of_time time)
up_to none (err e) = err invalid_room_time

module _ {V : Type 0} where
  -- `state.insert`, which replaces.
  unfoldable pub insert : String → StateValue V → State V → State V
  insert key v [] = (key, v) ∷ []
  insert key v ((k, u) ∷ state) =
      let rest = insert key v state in if str_eq k key then (key, v) ∷ state else (k, u) ∷ rest

  -- The `match` on the first event of the set.
  unfoldable pub set_value : List (Event.Object V) → StateValue V
  set_value [] = collection []
  set_value (e ∷ es) = if is_none e.label then single e else collection (e ∷ es)

-- The query for one set.
unfoldable pub state_query : ReadPayload → Uuid → ℤ → String → Query
unfolding new_query with_attribute with_occurred_at choose_limit
state_query payload room_id original_occurred_at set = with_occurred_at payload.occurred_at (
    with_attribute payload.attribute
      (new_query room_id set original_occurred_at (choose_limit payload.limit)))

-- What is authorized; `to_string` is the text of an id.
unfoldable pub read_request :
    {V : Type 0} → (Uuid → String) → Room.Object V → AccountId → AuthzRequest
read_request to_string room account_id = record {
  audience = room.audience;
  account_id = account_id;
  object = authz_object to_string room;
  action = "read";
}

module _ {X V B : Type 0} (label_before : String → String → Bool) (into_json : B → Option V) where
  -- `has_next`, where the set is the only one.
  unfoldable pub add_has_next : Bool → Query → State V → Task (ErrorKind X) V B (State V)
  unfolding total_count insert
  add_has_next true q state = total_count label_before (λ e. db_query_failed) q >>= λ n.
      done (insert "has_next" (flag (ltb_ℤ q.limit n)) state)
  add_has_next false q state = done state

  -- The body of the loop.
  unfoldable pub read_set : Bool → Query → State V → Task (ErrorKind X) V B (State V)
  unfolding add_has_next execute insert set_value
  read_set is_only q state = add_has_next is_only q state >>= λ state.
      execute label_before (λ e. db_query_failed) into_json q >>= λ events.
      done (insert q.set (set_value events) state)

  -- The loop over the sets.
  unfoldable pub read_sets :
      Bool → (String → Query) → List String → State V → Task (ErrorKind X) V B (State V)
  unfolding read_set
  read_sets is_only query [] state = done state
  read_sets is_only query (set ∷ sets) state =
      read_set is_only (query set) state >>= λ state. read_sets is_only query sets state

  module _ (to_string : Uuid → String) (authorize : AuthzRequest → Result {0} X Unit) where
    -- `handle`; the body of the response.
    unfoldable pub handle :
        DateTime → Uuid → ReadPayload → AccountId → Task (ErrorKind X) V B (State V)
    unfolding validate find_room read_request up_to try_from get_conn state_query read_sets
    handle now room_id payload account_id = lift (validate payload.sets) >>= λ _.
        find_room room_id any now >>= λ room.
        lift (wrap_authz (authorize (read_request to_string room account_id))) >>= λ _.
        lift (up_to payload.original_occurred_at (try_from room.time)) >>= λ original_occurred_at.
        get_conn >>= λ _.
        read_sets (length payload.sets == 1) (state_query payload room.id original_occurred_at)
          payload.sets []
