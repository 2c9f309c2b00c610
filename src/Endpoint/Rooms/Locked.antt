-- ===== src/Endpoint/Rooms/Locked.antt =====
-- What the locks of a room (`LockedTypesHandler` of `src/app/endpoint/room.rs`) mean for the events
-- that are created in it (`CreateHandler` of `src/app/endpoint/event.rs`).
use event.Base.{
  ◌≡◌, refl, sym, ◌∙◌, ap, Bool, true, false, Option, Option-cases, none, some, inl, inr, ◌↔◌,
  Result, ok, String, ℕ, arith,
}
use event.Db.{Uuid, AccountId, AgentId}
use event.Db.Room
use event.Db.Room.Access.{event_should_authz_room_update_iff}
use event.Db.Room.Queries as RoomQueries
use event.Db.Room.Queries.{retain, or_map}
use event.Db.Queries.Laws.{some_value}
use event.Db.Session.{World, Session}
use event.Db.Session.Failing.{FailsOr}
use event.RoomTime.{DateTime}
use event.Endpoint.CreateEvent as CreateEvent
use event.Endpoint.CreateEvent.{AuthzRequest, authz_request}
use event.Endpoint.CreateEvent.Authorized.{handle-IsGranted}
use event.Endpoint.Rooms.{Response, chain, locks_query, access_query, room_request}
use event.Endpoint.Rooms.Handlers.{locked_types, whiteboard_access}
use event.Endpoint.Rooms.Locks.{locked_types-IsWritten, whiteboard_access-IsWritten}

-- The locks of the updated room.
updated-locks :
    {V : Type 0} (old room : Room.Object V) (locks : String → Option Bool) (kind : String)
    → RoomQueries.updated_room (locks_query old locks) old ≡ room
    → room.locked_types kind ≡ retain (chain old.locked_types locks) kind
unfolding RoomQueries.updated_room locks_query
updated-locks old room locks kind h = ap (λ x. x.locked_types kind) (sym h)

retain_iff :
    {K : Type 0} (m : K → Option Bool) (k : K) → (retain m k ≡ some true) ↔ (m k ≡ some true)
retain_iff m k = elim (Option-cases (m k)) [
  | inl h ↦ rw (retain, h) (λ p. p, λ p. p)
  | inr (true, h) ↦ rw (retain, h) (λ p. p, λ p. p)
  | inr (false, h) ↦ rw (retain, h) (λ p. cc, λ p. cc)
]

none_or_some : {A : Type 0} {a : A} → ¬ (none ≡ some a)
none_or_some h = cc

taken :
    {K : Type 0} (old new : K → Option Bool) (k : K)
    → new k ≡ some false
    → retain (chain old new) k ≡ none
taken old new k h = rw (retain, h) refl

chain-none :
    {K : Type 0} (old new : K → Option Bool) (k : K) → new k ≡ none → chain old new k ≡ old k
chain-none old new k h = rw (chain, h) refl

authz_request-update :
    {V : Type 0} (to_string : Uuid → String) (room : Room.Object V)
    (payload : CreateEvent.CreatePayload V) (account author : AccountId)
    → Room.event_should_authz_room_update room payload.kind account ≡ true
    → authz_request to_string room payload account author
      ≡ room_request to_string room "update" account
unfolding authz_request room_request
authz_request-update to_string room payload account author h = rw (authz_request, h) refl

-- The accesses of the updated room, whose class stays.
updated-access :
    {V : Type 0} (old room : Room.Object V) (accesses : AccountId → Option Bool)
    (account : AccountId)
    → RoomQueries.updated_room (access_query old accesses) old ≡ room
    → (room.whiteboard_access account ≡ retain (chain old.whiteboard_access accesses) account)
      × (room.kind ≡ old.kind)
unfolding RoomQueries.updated_room access_query
updated-access old room accesses account h =
    (ap (λ x. x.whiteboard_access account) (sym h), ap (λ x. x.kind) (sym h))

validates-minigroup :
    {V : Type 0} (room : Room.Object V)
    → Room.validate_whiteboard_access room ≡ true
    → room.kind ≡ Room.minigroup
unfolding Room.validate_whiteboard_access
validates-minigroup room h = ground arith

module _ {X V' B : Type 0} (to_string : Uuid → String)
    (authorize : AuthzRequest → Result {0} X Unit) where
  -- If a change of locks goes through, then a kind that it locks is locked in the room, a kind that
  -- it unlocks is not, and a kind that it does not name is locked if it was locked before.
  pub locked_types-locks :
      (now : DateTime) (id : Uuid) (locks : String → Option Bool) (account_id : AccountId)
      (w : World) (s s' : Session V' B) (r : Response V')
      → locked_types to_string authorize now id locks account_id w s ≡ (ok r, s')
      → (old : Room.Object V') × (RoomQueries.find_room id s.tables.rooms ≡ some old)
        × (RoomQueries.find_room id s'.tables.rooms ≡ some r.body)
        × ((kind : String) → locks kind ≡ some true → r.body.locked_types kind ≡ some true)
        × ((kind : String) → locks kind ≡ some false → r.body.locked_types kind ≡ none)
        × ((kind : String)
            → locks kind ≡ none
            → (r.body.locked_types kind ≡ some true) ↔ (old.locked_types kind ≡ some true))
  locked_types-locks now id locks account_id w s s' r e =
      let (old, (found, _), (same, there)) =
        locked_types-IsWritten to_string authorize now id locks account_id w s s' r e in
      (
        old,
        found,
        there,
        λ kind h. updated-locks old r.body locks kind same ∙ rw (retain, h) refl,
        λ kind h. updated-locks old r.body locks kind same ∙ rw (retain, h) refl,
        λ kind h.
            let at = updated-locks old r.body locks kind same in
            let (there, back) = retain_iff (chain old.locked_types locks) kind in
            let kept = chain-none old.locked_types locks kind h in
            (λ p. sym kept ∙ there (sym at ∙ p), λ p. at ∙ back (kept ∙ p)),
      )

  module _ (as_account_id : AgentId → AccountId) (size : V' → ℕ) (payload_size : ℕ)
      (from_json : V' → Option B) (into_json : B → Option V') where
    -- What was granted for an event that wants the right to update the room.
    IsGranted-update :
        (room body : Room.Object V') (payload : CreateEvent.CreatePayload V') (agent_id : AgentId)
        (author : AccountId)
        → room ≡ body
        → Room.event_should_authz_room_update body payload.kind (as_account_id agent_id) ≡ true
        → authorize (authz_request to_string room payload (as_account_id agent_id) author) ≡ ok tt
        → authorize (room_request to_string body "update" (as_account_id agent_id)) ≡ ok tt
    IsGranted-update room body payload agent_id author one update granted =
        ap authorize (
          sym (authz_request-update to_string body payload (as_account_id agent_id) author update)
          ∙ ap (λ x. authz_request to_string x payload (as_account_id agent_id) author) (sym one))
        ∙ granted

    -- After a change of locks that locks a kind, a request for an event of the kind in the room
    -- either fails and leaves the tables as they were, or comes from an account that the
    -- authorization service has granted to update the room.
    pub locked_types-create :
        (now : DateTime) (id : Uuid) (locks : String → Option Bool) (account_id : AccountId)
        (w : World) (s s' : Session V' B) (r : Response V') (readings : CreateEvent.Readings)
        (payload : CreateEvent.CreatePayload V') (agent_id : AgentId) (w' : World)
        → locked_types to_string authorize now id locks account_id w s ≡ (ok r, s')
        → locks payload.kind ≡ some true
        → FailsOr
            (λ t. t ≡ s'.tables)
            (authorize (room_request to_string r.body "update" (as_account_id agent_id)) ≡ ok tt)
            (CreateEvent.handle to_string as_account_id authorize size payload_size from_json
              into_json readings id payload agent_id w' s')
    locked_types-create now id locks account_id w s s' r readings payload agent_id w' e h =
        let (old, _, there, locked, _, _) = locked_types-locks now id locks account_id w s s' r e in
        elim (handle-IsGranted to_string as_account_id authorize size payload_size from_json
          into_json readings id payload agent_id w' s') [
            | inl f ↦ inl f
            | inr (room, author, found, _, _, granted) ↦ inr (
                IsGranted-update room r.body payload agent_id author
                  (some_value (sym found ∙ there))
                  ((event_should_authz_room_update_iff r.body payload.kind
                      (as_account_id agent_id)).1
                    (inl (locked payload.kind h)))
                  granted)
          ]

    -- After a change of accesses that takes the whiteboard from an account, a request of the account
    -- for a drawing in the room either fails and leaves the tables as they were, or the
    -- authorization service has granted the account to update the room.
    pub whiteboard_access-create :
        (now : DateTime) (id : Uuid) (accesses : AccountId → Option Bool) (account_id : AccountId)
        (w : World) (s s' : Session V' B) (r : Response V') (readings : CreateEvent.Readings)
        (payload : CreateEvent.CreatePayload V') (agent_id : AgentId) (w' : World)
        → whiteboard_access to_string authorize now id accesses account_id w s ≡ (ok r, s')
        → accesses (as_account_id agent_id) ≡ some false
        → payload.kind ≡ "draw"
        → FailsOr
            (λ t. t ≡ s'.tables)
            (authorize (room_request to_string r.body "update" (as_account_id agent_id)) ≡ ok tt)
            (CreateEvent.handle to_string as_account_id authorize size payload_size from_json
              into_json readings id payload agent_id w' s')
    whiteboard_access-create now id accesses account_id w s s' r readings payload agent_id w' e h
          draws =
        let (old, _, checks, (same, there)) =
          whiteboard_access-IsWritten to_string authorize now id accesses account_id w s s' r e in
        let (access, class) = updated-access old r.body accesses (as_account_id agent_id) same in
        elim (handle-IsGranted to_string as_account_id authorize size payload_size from_json
          into_json readings id payload agent_id w' s') [
            | inl f ↦ inl f
            | inr (room, author, found, _, _, granted) ↦ inr (
                IsGranted-update room r.body payload agent_id author
                  (some_value (sym found ∙ there))
                  ((event_should_authz_room_update_iff r.body payload.kind
                      (as_account_id agent_id)).1
                    (inr (
                      inl draws,
                      class ∙ validates-minigroup old checks,
                      λ p. none_or_some (
                          sym (
                            access
                            ∙ taken old.whiteboard_access accesses (as_account_id agent_id) h)
                          ∙ p),
                    )))
                  granted)
          ]
