-- ===== src/Endpoint/CreateEvent/Authorized.antt =====
-- No event is created without authorization (`CreateHandler` of `src/app/endpoint/event.rs`).
use event.Base.{
  ◌≡◌, refl, sym, subst, ℕ, true, inl, inr, ◌⊎◌, Option, some, Result, ok, err, String,
}
use event.Db.{Uuid, AgentId, AccountId}
use event.Db.Room
use event.Db.Room.Queries as RoomQueries
use event.Db.Session.{Tables, Session, World}
use event.Db.Session.Failing.{FailsOr, >>=-FailsOr}
use event.Endpoint.Helpers.{ErrorKind, not_authorized, find_room, «open»}
use event.Endpoint.CreateEvent.{
  CreatePayload, AuthzRequest, Readings, handle, authz_request, author_of, wrap_authz,
}
use event.Endpoint.CreateEvent.Steps.{
  find_room-Keeps, find_room-ok, author_of-Keeps, author_of-ok, IsAuthor,
}

wrap_authz-cases :
    {X : Type 0} (r : Result {0} X Unit)
    → ((e : ErrorKind X) × (wrap_authz r ≡ err e)) ⊎ (r ≡ ok tt)
wrap_authz-cases (ok tt) = inr refl
wrap_authz-cases (err e) = inl (not_authorized e, refl)

pub wrap_authz-ok :
    {X : Type 0} (r : Result {0} X Unit) (u : Unit) → wrap_authz r ≡ ok u → r ≡ ok tt
wrap_authz-ok (ok u) v h = refl
wrap_authz-ok (err e) v h = cc

module _ {X V' B : Type 0} (to_string : Uuid → String) (as_account_id : AgentId → AccountId)
    (authorize : AuthzRequest → Result {0} X Unit) (size : V' → ℕ) (payload_size : ℕ)
    (from_json : V' → Option B) (into_json : B → Option V') where
  -- The room is among the tables and open, and the request for its event is granted, with the
  -- author of the original event of the label.
  abbrev pub IsGranted : Readings → Uuid → CreatePayload V' → AgentId → Tables V' B → Type 0
  IsGranted readings room_id payload agent_id t =
      (room : Room.Object V') × (author : AccountId) × (RoomQueries.find_room room_id t.rooms
        ≡ some room)
      × (Room.is_open readings.found_at room.time ≡ true)
      × IsAuthor X as_account_id into_json room.id payload.set payload.label
          (as_account_id agent_id) t author
      × (authorize (authz_request to_string room payload (as_account_id agent_id) author) ≡ ok tt)

  -- A request either fails and leaves the tables as they were, or its room is open and the
  -- authorization was granted, for the author of the original event of the label if there is one.
  pub handle-IsGranted :
      (readings : Readings) (room_id : Uuid) (payload : CreatePayload V') (agent_id : AgentId)
      (w : World) (s : Session V' B)
      → FailsOr
          (λ t. t ≡ s.tables)
          (IsGranted readings room_id payload agent_id s.tables)
          (handle to_string as_account_id authorize size payload_size from_json into_json readings
            room_id payload agent_id w s)
  unfolding handle
  handle-IsGranted readings room_id payload agent_id w s =
      let G : Type 0 = IsGranted readings room_id payload agent_id s.tables in
      let account_id : AccountId = as_account_id agent_id in
      >>=-FailsOr (λ t. t ≡ s.tables) G (find_room room_id «open» readings.found_at) _ w s
        (find_room-Keeps X (λ t. t ≡ s.tables) room_id readings.found_at w s refl)
        (λ room s1 e1.
          let (found, opened, k1) = find_room-ok X room_id readings.found_at w s s1 room e1 in
          >>=-FailsOr (λ t. t ≡ s.tables) G
            (author_of as_account_id into_json room.id payload.set payload.label account_id) _ w s1
            (author_of-Keeps X (λ t. t ≡ s.tables) as_account_id into_json room.id payload.set
              payload.label account_id w s1 (sym k1))
            (λ author s2 e2.
              let k2 =
                author_of-Keeps X (λ t. t ≡ s.tables) as_account_id into_json room.id payload.set
                  payload.label account_id w s1 (sym k1) in
              elim (wrap_authz-cases
                (authorize (authz_request to_string room payload account_id author))) [
                  | inl (e, refused) ↦
                      inl (
                        e,
                        rw refused refl,
                        rw refused (subst (λ r. (r.1).tables ≡ s.tables) e2 k2),
                      )
                  | inr granted ↦ inr (
                    room,
                    author,
                    found,
                    opened,
                    subst
                        (λ t.
                          IsAuthor X as_account_id into_json room.id payload.set payload.label
                            account_id t author)
                        (sym k1)
                        (author_of-ok X as_account_id into_json room.id payload.set payload.label
                          account_id w s1 s2 author e2),
                    granted,
                  )
                ]))
