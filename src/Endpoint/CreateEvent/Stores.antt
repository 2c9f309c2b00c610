-- ===== src/Endpoint/CreateEvent/Stores.antt =====
-- What `CreateHandler` of `src/app/endpoint/event.rs` stores.
use event.Base.{
  ◌≡◌, refl, subst, ℕ, ℤ, leb, Bool-cases, Option-cases, inl, inr, Option, none, some, [], ◌∷◌,
  ◌++◌, Result, ok, err, String, if◌then◌else◌,
}
use event.Db.{Uuid, AgentId, AccountId}
use event.Db.Event.Insert.{InsertQuery, new_query, split_content}
use event.Db.Event.Raw.{RawObject}
use event.Db.Event.Stored.{stored_row, has_content}
use event.Db.Event.Stored.Originals.{HasOriginals, stored_row-HasOriginals}
use event.Db.Queries.{QueryError, refused, insert_event, event_statement}
use event.Db.Queries.Laws.{ok_parts}
use event.Db.Room
use event.RoomTime.{DateTime, try_from}
use event.Db.Session.{Tables, Session, World, lift, statement}
use event.Db.Session.Laws.{Keeps, >>=-Keeps, statement-Keeps}
use event.Endpoint.Helpers.{db_query_failed, payload_size_exceeded, find_room, get_conn, «open»}
use event.Endpoint.CreateEvent.{
  CreatePayload, AuthzRequest, Readings, handle, authz_request, author_of, wrap_authz,
  since_opening, create_authorized, create_event, insert_built, with_payload,
}
use event.Endpoint.CreateEvent.Steps.{get_conn-Keeps, find_room-Keeps, author_of-Keeps}

some_value : {A : Type 0} {a b : A} → ◌≡◌ {A = Option A} (some a) (some b) → a ≡ b
some_value h = cc

-- The query that is made of a payload leaves the creation time to the database.
pub new_query-fields :
    {V B : Type 0} (from_json : V → Option B) (room_id : Uuid) (kind : String) (v : V) (t : ℤ)
    (by : AgentId) (q : InsertQuery V B)
    → new_query from_json room_id kind v t by ≡ some q
    → (q.created_at ≡ none)
      × (q.room_id ≡ room_id)
      × (q.kind ≡ kind)
      × (q.set ≡ kind)
      × (q.created_by ≡ by)
      × (q.occurred_at ≡ t)
      × (split_content from_json kind v ≡ some (q.content, q.binary_data))
unfolding new_query
new_query-fields {V} {B} from_json room_id kind v t by q h =
    elim (Option-cases (split_content from_json kind v)) [
      | inl e ↦ cc (rw (new_query, e) at h)
      | inr (contents, e) ↦
          subst
            (λ x.
              (x.created_at ≡ none)
              × (x.room_id ≡ room_id)
              × (x.kind ≡ kind)
              × (x.set ≡ kind)
              × (x.created_by ≡ by)
              × (x.occurred_at ≡ t)
              × (split_content from_json kind v ≡ some (x.content, x.binary_data)))
            (some_value (rw (new_query, e) at h)) (refl, refl, refl, refl, refl, refl, e)
    ]

module _ {E V' B : Type 0} (wrap : QueryError → E) where
  pub event_statement-ok :
      (q : InsertQuery V' B) (ids : ℕ → Uuid) (now : DateTime) (t t' : Tables V' B)
      (row : RawObject V' B)
      → event_statement wrap q ids now t ≡ ok (row, t')
      → (stored_row (ids 0) now t.events q ≡ row)
        × (record t { events = t.events ++ stored_row (ids 0) now t.events q ∷ [] } ≡ t')
  unfolding event_statement
  event_statement-ok q ids now t t' row h =
      elim (Bool-cases (has_content q.content q.binary_data)) [
        | inl b ↦ ok_parts (rw (event_statement, b) at h)
        | inr b ↦ cc (rw (event_statement, b) at h)
      ]

  insert_event-HasOriginals :
      (into_json : B → Option V') (q : InsertQuery V' B)
      → q.created_at ≡ none
      → Keeps (λ t. HasOriginals t.events) (insert_event wrap into_json q)
  unfolding insert_event
  insert_event-HasOriginals into_json q c =
      >>=-Keeps (λ t. HasOriginals t.events) (statement (wrap refused) (event_statement wrap q)) _
        (statement-Keeps (λ t. HasOriginals t.events) (wrap refused) (event_statement wrap q)
          (λ ids now t a t' h e.
            subst (λ x. HasOriginals x.events) (event_statement-ok q ids now t t' a e).1
              (stored_row-HasOriginals t.events (ids 0) now q c h)))
        (λ raw w s h. h)

module _ {V' B : Type 0} (X : Type 0) (into_json : B → Option V') where
  insert_built-HasOriginals :
      (from_json : V' → Option B) (room_id : Uuid) (payload : CreatePayload V') (t : ℤ)
      (by : AgentId) (o : Option (InsertQuery V' B))
      → new_query from_json room_id payload.kind payload.content t by ≡ o
      → Keeps (λ t. HasOriginals t.events) (insert_built {X = X} into_json payload o)
  insert_built-HasOriginals from_json room_id payload t by none e = λ w s h. h
  insert_built-HasOriginals from_json room_id payload t by (some q) e =
      >>=-Keeps (λ t. HasOriginals t.events) (get_conn {X = X}) _
        (get_conn-Keeps X (λ t. HasOriginals t.events))
        (λ _.
          insert_event-HasOriginals (λ e. db_query_failed) into_json (with_payload payload q)
            (new_query-fields from_json room_id payload.kind payload.content t by q e).0)

module _ {X V' B : Type 0} (to_string : Uuid → String) (as_account_id : AgentId → AccountId)
    (authorize : AuthzRequest → Result {0} X Unit) (size : V' → ℕ) (payload_size : ℕ)
    (from_json : V' → Option B) (into_json : B → Option V') where
  abbrev Originals : Tables V' B → Type 0
  Originals t = HasOriginals t.events

  create_event-HasOriginals :
      (readings : Readings) (room_id : Uuid) (room : Room.Object V') (payload : CreatePayload V')
      (agent_id : AgentId) (occurred_at : ℤ)
      → Keeps Originals (
          create_event to_string as_account_id authorize size payload_size from_json into_json
            readings room_id room payload agent_id occurred_at)
  unfolding create_event
  create_event-HasOriginals readings room_id room payload agent_id occurred_at w s h =
      elim (Bool-cases payload.is_persistent) [
        | inl b ↦
            rw (create_event, b)
              (insert_built-HasOriginals X into_json from_json room.id payload occurred_at agent_id
                _ refl w s h)
        | inr b ↦ rw (create_event, b) h
      ]

  -- Whatever comes of a request, every stored event keeps the time and the author of the original
  -- event of its label.
  pub handle-HasOriginals :
      (readings : Readings) (room_id : Uuid) (payload : CreatePayload V') (agent_id : AgentId)
      (w : World) (s : Session V' B)
      → HasOriginals s.tables.events
      → HasOriginals
          ((handle to_string as_account_id authorize size payload_size from_json into_json readings
              room_id payload agent_id w s).1
            ).tables.events
  unfolding handle create_authorized
  handle-HasOriginals readings room_id payload agent_id w s h =
      >>=-Keeps Originals (find_room room_id «open» readings.found_at) _
        (find_room-Keeps X Originals room_id readings.found_at)
        (λ room.
          >>=-Keeps Originals
            (author_of as_account_id into_json room.id payload.set payload.label
              (as_account_id agent_id))
            _
            (author_of-Keeps X Originals as_account_id into_json room.id payload.set payload.label
              (as_account_id agent_id))
            (λ author.
              >>=-Keeps Originals
                (lift (
                  wrap_authz (
                    authorize
                      (authz_request to_string room payload (as_account_id agent_id) author))))
                _ (λ w s k. k)
                (λ _.
                  >>=-Keeps Originals
                    (create_authorized to_string as_account_id authorize size payload_size from_json
                      into_json readings room_id room payload agent_id)
                    _
                    (>>=-Keeps Originals
                      (lift (since_opening readings.occurred_at (try_from room.time))) _
                      (λ w s k. k)
                      (λ occurred_at.
                        >>=-Keeps Originals
                          (lift (
                            if leb payload_size (size payload.content)
                            then err payload_size_exceeded
                            else ok tt))
                          _ (λ w s k. k)
                          (λ _.
                            create_event-HasOriginals readings room_id room payload agent_id
                              occurred_at)))
                    (λ event w s k. k))))
        w s h
