-- ===== src/Endpoint/Rooms/Locks.antt =====
-- What `LockedTypesHandler` and `WhiteboardAccessHandler` of `src/app/endpoint/room.rs` do, and what
-- follows for the creation of events.
use event.Base.{
  ◌≡◌, refl, sym, ◌∙◌, subst, Bool, true, Bool-cases, Option, some, inl, inr, [], ◌∷◌, Result, ok,
  String,
}
use event.Db.{Uuid, AccountId}
use event.Db.Room
use event.Db.Room.Queries as RoomQueries
use event.Db.Room.Queries.{retain, or_map}
use event.Db.Queries.{update_room}
use event.Db.Queries.Laws.{ok_value}
use event.Db.Session.{Tables, World, Session, lift, atomically}
use event.Db.Session.Returns.{Returns, >>=-Returns, lift-Returns, atomically-Returns}
use event.RoomTime.{DateTime}
use event.Endpoint.CreateEvent.{AuthzRequest}
use event.Endpoint.Helpers.{ErrorKind, any, db_query_failed, find_room, get_conn}
use event.Endpoint.Helpers.Found.{find_room-Returns, find_room-id, get_conn-Returns}
use event.Endpoint.Rooms.{
  Response, locks_query, access_query, answer, checks_access, room_notification, room_events,
  room_request,
}
use event.Endpoint.Rooms.Changed.{IsUpdated-found, update_room-Returns, allowed-Returns}
use event.Endpoint.Rooms.Handlers.{allowed, write, locked_types, whiteboard_access}

module _ {V' B : Type 0} where
  -- The room is updated by this query, and found in the tables.
  abbrev pub IsWritten :
      RoomQueries.UpdateQuery V' → Uuid → Room.Object V' → Response V' → Tables V' B → Type 0
  IsWritten q id old r t' =
      (RoomQueries.updated_room q old ≡ r.body) × (RoomQueries.find_room id t'.rooms ≡ some r.body)

checks_access-ok :
    {X V : Type 0} (room : Room.Object V) (u : Unit)
    → ◌≡◌ {A = Result {0} (ErrorKind X) Unit} (checks_access room) (ok u)
    → Room.validate_whiteboard_access room ≡ true
checks_access-ok room u h = elim (Bool-cases (Room.validate_whiteboard_access room)) [
  | inl b ↦ b
  | inr b ↦ cc (rw (checks_access, b) at h)
]

module _ {X V' B : Type 0} (to_string : Uuid → String)
    (authorize : AuthzRequest → Result {0} X Unit) where
  write-Returns :
      (query : Room.Object V' → RoomQueries.UpdateQuery V') (before : Tables V' B) (id : Uuid)
      (old : Room.Object V')
      → (query old).id ≡ old.id
      → RoomQueries.find_room id before.rooms ≡ some old
      → Returns
          (λ t. t ≡ before)
          (write to_string authorize query old)
          (IsWritten (query old) id old)
  unfolding write
  write-Returns query before id old same_id found =
      let at_id = same_id ∙ find_room-id id before.rooms old found in
      >>=-Returns _ _ _ get_conn _ (get_conn-Returns _) (λ _.
        >>=-Returns _ _ _
          (atomically db_query_failed (update_room (λ e. db_query_failed) (query old))) _
          (atomically-Returns _ _ db_query_failed (update_room (λ e. db_query_failed) (query old))
            (update_room-Returns (λ e. db_query_failed) (λ t. t ≡ before) (query old)))
          (λ room.
            lift-Returns _ _
              (ok (
                answer room
                  (room_notification "room.update" (room_events to_string room.id) room ∷ [])))
              (λ r t h e.
                let (changed, there) =
                  IsUpdated-found _ (query old) old room t
                    (λ u p.
                      subst
                        (λ (v : Tables V' B).
                          RoomQueries.find_room (query old).id v.rooms ≡ some old)
                        (sym p)
                        (subst (λ i. RoomQueries.find_room i before.rooms ≡ some old) (sym at_id)
                          found))
                    h in
                subst (λ x. IsWritten (query old) id old x t) (ok_value e)
                  (changed, subst (λ i. RoomQueries.find_room i t.rooms ≡ some room) at_id there))))

  -- The room was in the tables, and the account may update it.
  abbrev pub MayWrite : Uuid → AccountId → Tables V' B → Room.Object V' → Type 0
  MayWrite id account_id t old =
      (RoomQueries.find_room id t.rooms ≡ some old)
      × (authorize (room_request to_string old "update" account_id) ≡ ok tt)

  -- If a change of locks goes through, the room was in the tables and the authorization service has
  -- granted the account to update it; the answer is the updated room, which the tables have under
  -- the same id.
  pub locked_types-IsWritten :
      (now : DateTime) (id : Uuid) (locks : String → Option Bool) (account_id : AccountId)
      (w : World) (s s' : Session V' B) (r : Response V')
      → locked_types to_string authorize now id locks account_id w s ≡ (ok r, s')
      → (old : Room.Object V') × MayWrite id account_id s.tables old
        × IsWritten (locks_query old locks) id old r s'.tables
  unfolding locked_types locks_query RoomQueries.update_of
  locked_types-IsWritten now id locks account_id w s s' r e =
      >>=-Returns (λ t. t ≡ s.tables) _
        (λ r t.
          (old : Room.Object V') × MayWrite id account_id s.tables old
          × IsWritten (locks_query old locks) id old r t)
        (find_room id any now) _ (find_room-Returns (λ t. t ≡ s.tables) id any now)
        (λ old.
          >>=-Returns _ _ _
            (allowed to_string authorize (room_request to_string old "update" account_id)) _
            (allowed-Returns to_string authorize _ (room_request to_string old "update" account_id))
            (λ u w1 s1 r s2 p k.
              let ((same, found, _), granted) = p in
              let there =
                subst (λ (t : Tables V' B). RoomQueries.find_room id t.rooms ≡ some old) same
                  found in
              (
                old,
                (there, granted),
                write-Returns (λ room. locks_query room locks) s.tables id old refl there w1 s1 r s2
                    same k,
              )))
        w s r s' refl e

  -- If a change of accesses to the whiteboard goes through, the room was in the tables and checks
  -- accesses, and the authorization service has granted the account to update it; the answer is the
  -- updated room, which the tables have under the same id.
  pub whiteboard_access-IsWritten :
      (now : DateTime) (id : Uuid) (accesses : AccountId → Option Bool) (account_id : AccountId)
      (w : World) (s s' : Session V' B) (r : Response V')
      → whiteboard_access to_string authorize now id accesses account_id w s ≡ (ok r, s')
      → (old : Room.Object V') × MayWrite id account_id s.tables old
        × (Room.validate_whiteboard_access old ≡ true)
        × IsWritten (access_query old accesses) id old r s'.tables
  unfolding whiteboard_access access_query RoomQueries.update_of
  whiteboard_access-IsWritten now id accesses account_id w s s' r e =
      >>=-Returns (λ t. t ≡ s.tables) _
        (λ r t.
          (old : Room.Object V') × MayWrite id account_id s.tables old
          × (Room.validate_whiteboard_access old ≡ true)
          × IsWritten (access_query old accesses) id old r t)
        (find_room id any now) _ (find_room-Returns (λ t. t ≡ s.tables) id any now)
        (λ old.
          >>=-Returns _ _ _ (lift (checks_access old)) _
            (lift-Returns _
              (λ u t.
                (t ≡ s.tables)
                × (RoomQueries.find_room id t.rooms ≡ some old)
                × (Room.validate_whiteboard_access old ≡ true))
              (checks_access old) (λ u t p k. (p.0, p.1, checks_access-ok old u k)))
            (λ _.
              >>=-Returns _ _ _
                (allowed to_string authorize (room_request to_string old "update" account_id)) _
                (allowed-Returns to_string authorize _
                  (room_request to_string old "update" account_id))
                (λ u w1 s1 r s2 p k.
                  let ((same, found, checks), granted) = p in
                  let there =
                    subst (λ (t : Tables V' B). RoomQueries.find_room id t.rooms ≡ some old) same
                      found in
                  (
                    old,
                    (there, granted),
                    checks,
                    write-Returns (λ room. access_query room accesses) s.tables id old refl there w1
                        s1 r s2 same k,
                  ))))
        w s r s' refl e
