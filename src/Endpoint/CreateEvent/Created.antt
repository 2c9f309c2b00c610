-- ===== src/Endpoint/CreateEvent/Created.antt =====
-- What a request that goes through has stored (`CreateHandler` of `src/app/endpoint/event.rs`).
use event.Base.{
  ◌≡◌, refl, sym, ◌∙◌, ap, subst, ℕ, ℤ, leb, Bool, true, false, Bool-cases, inl, inr, Option, none,
  some, [], ◌∷◌, ◌++◌, Result, ok, err, String, if◌then◌else◌,
}
use event.Db.{Uuid, AgentId, AccountId}
use event.Db.Event
use event.Db.Event.Insert.{InsertQuery, new_query}
use event.Db.Event.Raw.{RawObject, from_raw}
use event.Db.Queries.{from_decoded, insert_event, event_statement}
use event.Db.Queries.Laws.{ok_parts, ok_value, from_decoded-ok}
use event.Db.Room
use event.Db.Room.Queries as RoomQueries
use event.RoomTime.{try_from}
use event.Db.Session.{Tables, Session, World, lift, statement, commit}
use event.Db.Session.Laws.{>>=-ok, lift-ok, statement-ok}
use event.Endpoint.Helpers.Found.{find_room-id}
use event.Endpoint.Helpers.{
  db_conn_acquisition_failed, db_query_failed, payload_size_exceeded, find_room, get_conn, «open»,
}
use event.Endpoint.CreateEvent.{
  CreatePayload, AuthzRequest, Readings, Response, handle, authz_request, author_of, wrap_authz,
  since_opening, create_authorized, create_event, insert_built, with_payload, response,
}
use event.Endpoint.CreateEvent.Steps.{find_room-ok, author_of-Keeps}
use event.Endpoint.CreateEvent.Stores.{new_query-fields, event_statement-ok}
use event.Endpoint.CreateEvent.Effects.{
  IsEventOf, IsSinceOpening, IsRowOf, StoresEvent, Creates, transient_event-IsEventOf,
  since_opening-IsSinceOpening, stored_row-IsRowOf,
}

short_enough :
    {E : Type 0} (b : Bool) (e : E)
    → ◌≡◌ {A = Result {0} E Unit} (if b then err e else ok tt) (ok tt)
    → b ≡ false
short_enough true e h = cc
short_enough false e h = refl

module _ {V' B : Type 0} where
  insert_built-ok :
      (X : Type 0) (into_json : B → Option V') (from_json : V' → Option B) (room_id : Uuid)
      (payload : CreatePayload V') (t : ℤ) (by : AgentId) (o : Option (InsertQuery V' B))
      (w : World) (s s' : Session V' B) (event : Event.Object V')
      → new_query from_json room_id payload.kind payload.content t by ≡ o
      → insert_built {X = X} into_json payload o w s ≡ (ok event, s')
      → StoresEvent from_json into_json room_id payload by t s.tables s'.tables event
  unfolding insert_event get_conn
  insert_built-ok X into_json from_json room_id payload t by none w s s' event e h = cc
  insert_built-ok X into_json from_json room_id payload t by (some q) w s s' event e h =
      let (u, s1, e1, h1) = >>=-ok (get_conn {X = X}) _ w s h in
      let (raw, s2, e2, h2) =
        >>=-ok
          (statement {A = RawObject V' B} db_query_failed
            (event_statement (λ e. db_query_failed) (with_payload payload q)))
          _ w s1 h1 in
      let k1 = (ok_parts (statement-ok db_conn_acquisition_failed (commit tt) w s e1)).1 in
      let (same, stored) =
        event_statement-ok (λ e. db_query_failed) (with_payload payload q) (w.id s1.count)
          (w.now s1.count) s1.tables s2.tables raw (statement-ok db_query_failed _ w s1 e2) in
      let (decoded, k2) =
        lift-ok (from_decoded (λ e. db_query_failed) (from_raw into_json raw)) w s2 s' h2 in
      let (c, r, k, st, b, o, d) =
        new_query-fields from_json room_id payload.kind payload.content t by q e in
      let is_row =
        stored_row-IsRowOf from_json room_id (w.id s1.count 0) (w.now s1.count) s1.tables.events
          payload by t q r k st b o d in
      (
        raw,
        subst (IsRowOf from_json room_id payload by t) same is_row,
        ap (λ (t : Tables V' B). record t { events = t.events ++ raw ∷ [] }) k1
            ∙ ap {B = Tables V' B} (λ x. record s1.tables { events = s1.tables.events ++ x ∷ [] })
                (sym same)
            ∙ stored
            ∙ k2,
        from_decoded-ok (λ e. db_query_failed) (from_raw into_json raw) decoded,
      )

module _ {X V' B : Type 0} (to_string : Uuid → String) (as_account_id : AgentId → AccountId)
    (authorize : AuthzRequest → Result {0} X Unit) (size : V' → ℕ) (payload_size : ℕ)
    (from_json : V' → Option B) (into_json : B → Option V') where
  create_event-ok :
      (readings : Readings) (room_id : Uuid) (room : Room.Object V') (payload : CreatePayload V')
      (agent_id : AgentId) (occurred_at : ℤ) (w : World) (s s' : Session V' B)
      (event : Event.Object V')
      → room.id ≡ room_id
      → create_event to_string as_account_id authorize size payload_size from_json into_json
          readings room_id room payload agent_id occurred_at w s
        ≡ (ok event, s')
      → Creates from_json into_json room_id payload agent_id occurred_at s.tables s'.tables event
  unfolding create_event
  create_event-ok readings room_id room payload agent_id occurred_at w s s' event r h =
      elim (Bool-cases payload.is_persistent) [
        | inl b ↦ inl (
          b,
          subst
              (λ id.
                StoresEvent from_json into_json id payload agent_id occurred_at s.tables s'.tables
                  event)
              r
              (insert_built-ok X into_json from_json room.id payload occurred_at agent_id _ w s s'
                event refl (rw (create_event, b) at h)),
        )
        | inr b ↦
            let (same, k) = lift-ok (ok _) w s s' (rw (create_event, b) at h) in
            inr (
              b,
              k,
              subst (IsEventOf room_id payload agent_id occurred_at) (ok_value same)
                  (transient_event-IsEventOf readings room_id payload agent_id occurred_at),
            )
      ]

  create_authorized-ok :
      (readings : Readings) (room_id : Uuid) (room : Room.Object V') (payload : CreatePayload V')
      (agent_id : AgentId) (w : World) (s s' : Session V' B) (event : Event.Object V')
      → room.id ≡ room_id
      → create_authorized to_string as_account_id authorize size payload_size from_json into_json
          readings room_id room payload agent_id w s
        ≡ (ok event, s')
      → (leb payload_size (size payload.content) ≡ false)
        × ((t : ℤ) × IsSinceOpening room readings.occurred_at t
            × Creates from_json into_json room_id payload agent_id t s.tables s'.tables event)
  unfolding create_authorized
  create_authorized-ok readings room_id room payload agent_id w s s' event r h =
      let (t, s1, e1, h1) =
        >>=-ok (lift (since_opening readings.occurred_at (try_from room.time))) _ w s h in
      let (u, s2, e2, h2) =
        >>=-ok
          (lift
            (if leb payload_size (size payload.content) then err payload_size_exceeded else ok tt))
          _ w s1 h1 in
      let (since, k1) =
        lift-ok (since_opening readings.occurred_at (try_from room.time)) w s s1 e1 in
      let (fits, k2) =
        lift-ok
          (if leb payload_size (size payload.content) then err payload_size_exceeded else ok tt) w
          s1 s2 e2 in
      (
        short_enough (leb payload_size (size payload.content)) payload_size_exceeded fits,
        (
          t,
          since_opening-IsSinceOpening {X = X} readings.occurred_at room.time t since,
          subst (λ x. Creates from_json into_json room_id payload agent_id t x s'.tables event)
              (sym (k1 ∙ k2))
              (create_event-ok readings room_id room payload agent_id t w s2 s' event r h2),
        ),
      )

  -- A request that goes through has created its event, at the time since the opening of the room,
  -- which is in the tables. One that is persistent is one more row, with the fields of the payload
  -- and by the agent, which reads as the event of the response; the row of a drawing has the binary
  -- data that are made of the content, any other the content. One that is not leaves the tables, and
  -- the event of the response has the fields of the payload, but is not removed, and is by the
  -- agent. The content is shorter than the limit.
  pub handle-ok :
      (readings : Readings) (room_id : Uuid) (payload : CreatePayload V') (agent_id : AgentId)
      (w : World) (s s' : Session V' B) (answer : Response V')
      → handle to_string as_account_id authorize size payload_size from_json into_json readings
          room_id payload agent_id w s
        ≡ (ok answer, s')
      → (leb payload_size (size payload.content) ≡ false)
        × ((room : Room.Object V') × (t : ℤ) × (RoomQueries.find_room room_id s.tables.rooms
              ≡ some room)
            × IsSinceOpening room readings.occurred_at t
            × Creates from_json into_json room_id payload agent_id t s.tables s'.tables answer.body)
  unfolding handle response
  handle-ok readings room_id payload agent_id w s s' answer h =
      let account_id : AccountId = as_account_id agent_id in
      let (room, s1, e1, h1) = >>=-ok (find_room room_id «open» readings.found_at) _ w s h in
      let (author, s2, e2, h2) =
        >>=-ok (author_of as_account_id into_json room.id payload.set payload.label account_id) _ w
          s1 h1 in
      let (u, s3, e3, h3) =
        >>=-ok
          (lift (wrap_authz (authorize (authz_request to_string room payload account_id author)))) _
          w s2 h2 in
      let (event, s4, e4, h4) =
        >>=-ok
          (create_authorized to_string as_account_id authorize size payload_size from_json into_json
            readings room_id room payload agent_id)
          _ w s3 h3 in
      let (found, _, k1) = find_room-ok X room_id readings.found_at w s s1 room e1 in
      let k2 =
        subst (λ r. (r.1).tables ≡ s1.tables) e2
          (author_of-Keeps X (λ t. t ≡ s1.tables) as_account_id into_json room.id payload.set
            payload.label account_id w s1 refl) in
      let k3 =
        (lift-ok (wrap_authz (authorize (authz_request to_string room payload account_id author))) w
          s2 s3 e3).1 in
      let (fits, (t, since, creates)) =
        create_authorized-ok readings room_id room payload agent_id w s3 s4 event
          (find_room-id room_id s.tables.rooms room found) e4 in
      let (same, k4) = lift-ok (ok (response to_string room payload.is_claim event)) w s4 s' h4 in
      (
        fits,
        (
          room,
          t,
          found,
          since,
          subst (λ x. Creates from_json into_json room_id payload agent_id t s.tables s'.tables x)
              (ap (λ a. a.body) (ok_value same))
              (subst (λ x. Creates from_json into_json room_id payload agent_id t s.tables x event)
                k4
                (subst
                  (λ x. Creates from_json into_json room_id payload agent_id t x s4.tables event)
                  (sym (k1 ∙ sym k2 ∙ k3)) creates)),
        ),
      )
