-- ===== src/Endpoint/Rooms/Succeeding.antt =====
-- When `LockedTypesHandler` of `src/app/endpoint/room.rs` goes through.
use event.Base.{
  ◌≡◌, refl, sym, ◌∙◌, ap, subst, Bool, true, Option, some, [], ◌∷◌, Result, ok, String,
}
use event.Db.{Uuid, AccountId}
use event.Db.Room
use event.Db.Room.Queries as RoomQueries
use event.Db.Queries.{QueryError, refused, update_room, update_statement}
use event.Db.Session.{Tables, World, Session, atomically, statement, commit}
use event.Db.Session.Succeeds.{
  IsUp, Succeeds, >>=-Succeeds, lift-Succeeds, statement-Succeeds, atomically-Succeeds,
}
use event.RoomTime.{DateTime}
use event.Endpoint.CreateEvent.{AuthzRequest, wrap_authz}
use event.Endpoint.Helpers.{
  ErrorKind, any, db_conn_acquisition_failed, db_query_failed, find_room, found_room, required,
  get_conn,
}
use event.Endpoint.Helpers.Found.{find_room-id}
use event.Endpoint.Rooms.{
  Response, locks_query, answer, room_notification, room_events, room_request,
}
use event.Endpoint.Rooms.Handlers.{allowed, write, locked_types}
use event.Endpoint.Rooms.Locked.{locked_types-locks}

module _ {X V' B : Type 0} where
  get_conn-Succeeds : (P : Tables V' B → Type 0) → Succeeds P (get_conn {X = X}) (λ u t. P t)
  unfolding get_conn
  get_conn-Succeeds P =
      statement-Succeeds P (λ u t. P t) db_conn_acquisition_failed (commit tt)
        (λ ids now t p. (tt, t, refl, p))

  -- A room of the tables is found.
  find_room-Succeeds :
      (id : Uuid) (now : DateTime) (room : Room.Object V')
      → Succeeds {B = B}
          (λ t. RoomQueries.find_room id t.rooms ≡ some room)
          (find_room {X = X} id any now)
          (λ found t. (RoomQueries.find_room id t.rooms ≡ some room) × (found ≡ room))
  unfolding find_room required
  find_room-Succeeds id now room =
      >>=-Succeeds _ _ _ get_conn _
        (get_conn-Succeeds (λ t. RoomQueries.find_room id t.rooms ≡ some room))
        (λ _.
          >>=-Succeeds _ (λ o t. (RoomQueries.find_room id t.rooms ≡ some room) × (o ≡ some room)) _
            (statement db_query_failed (λ ids now t. ok (RoomQueries.find_room id t.rooms, t))) _
            (statement-Succeeds _ _ db_query_failed _
              (λ ids now t p. (RoomQueries.find_room id t.rooms, t, refl, (p, p))))
            (λ o.
              lift-Succeeds _ _ (found_room any now o)
                (λ t (p, same). (room, ap (found_room any now) same, (p, refl)))))

  -- A room of the tables is updated, where its time is a range.
  update_room-Succeeds :
      (wrap : QueryError → ErrorKind X) (q : RoomQueries.UpdateQuery V') (old : Room.Object V')
      → RoomQueries.is_range (RoomQueries.updated_room q old).time ≡ true
      → Succeeds {B = B}
          (λ t. RoomQueries.find_room q.id t.rooms ≡ some old)
          (update_room wrap q)
          (λ room t. Unit)
  unfolding update_room update_statement
  update_room-Succeeds wrap q old range =
      statement-Succeeds _ _ (wrap refused) (update_statement wrap q) (λ ids now t p. (
        RoomQueries.updated_room q old,
        record t { rooms = RoomQueries.update_rooms q t.rooms },
        rw (update_statement, p, range) refl,
        tt,
      ))

module _ {X V' B : Type 0} (to_string : Uuid → String)
    (authorize : AuthzRequest → Result {0} X Unit) where
  write-Succeeds :
      (query : Room.Object V' → RoomQueries.UpdateQuery V') (id : Uuid) (old : Room.Object V')
      → (query old).id ≡ id
      → RoomQueries.is_range (RoomQueries.updated_room (query old) old).time ≡ true
      → Succeeds {B = B}
          (λ t. RoomQueries.find_room id t.rooms ≡ some old)
          (write to_string authorize query old)
          (λ r t. Unit)
  unfolding write
  write-Succeeds query id old same_id range =
      >>=-Succeeds _ _ _ get_conn _
        (get_conn-Succeeds (λ t. RoomQueries.find_room id t.rooms ≡ some old))
        (λ _.
          >>=-Succeeds _ (λ r t. Unit) _
            (atomically db_query_failed (update_room (λ e. db_query_failed) (query old))) _
            (atomically-Succeeds _ _ db_query_failed
              (update_room (λ e. db_query_failed) (query old))
              (subst
                (λ i.
                  Succeeds {B = B} (λ t. RoomQueries.find_room i t.rooms ≡ some old)
                    (update_room {E = ErrorKind X} (λ e. db_query_failed) (query old))
                    (λ r t. Unit))
                same_id (update_room-Succeeds (λ e. db_query_failed) (query old) old range)))
            (λ room.
              lift-Succeeds _ _
                (ok (
                  answer room
                    (room_notification "room.update" (room_events to_string room.id) room ∷ [])))
                (λ t u. (_, refl, tt))))

  locked_types-runs :
      (now : DateTime) (id : Uuid) (locks : String → Option Bool) (account_id : AccountId)
      (old : Room.Object V')
      → old.id ≡ id
      → RoomQueries.is_range old.time ≡ true
      → authorize (room_request to_string old "update" account_id) ≡ ok tt
      → Succeeds {B = B}
          (λ t. RoomQueries.find_room id t.rooms ≡ some old)
          (locked_types to_string authorize now id locks account_id)
          (λ r t. Unit)
  unfolding locked_types allowed locks_query RoomQueries.updated_room RoomQueries.update_of
  locked_types-runs now id locks account_id old same_id range granted =
      >>=-Succeeds _ _ _ (find_room id any now) _ (find_room-Succeeds id now old) (λ room.
        >>=-Succeeds _ (λ u t. (RoomQueries.find_room id t.rooms ≡ some old) × (room ≡ old)) _
          (allowed to_string authorize (room_request to_string room "update" account_id)) _
          (lift-Succeeds _ _
            (wrap_authz (authorize (room_request to_string room "update" account_id)))
            (λ t (p, same). (
              tt,
              ap wrap_authz (
                  ap (λ x. authorize (room_request to_string x "update" account_id)) same
                  ∙ granted),
              (p, same),
            )))
          (λ _ w s up (p, same).
            subst
              (λ x.
                (r : Response V') × (s' : Session V' B) × (write to_string authorize
                    (λ room. locks_query room locks) x w s
                  ≡ (ok r, s'))
                × Unit)
              (sym same)
              (write-Succeeds (λ room. locks_query room locks) id old same_id range w s up p)))

  -- If the database fails no statement, the room is in the tables with a range as its time, and the
  -- authorization service grants the account to update it, then a change of locks goes through, and
  -- a kind that it locks is locked in the room of the tables.
  pub locked_types-Succeeds :
      (now : DateTime) (id : Uuid) (locks : String → Option Bool) (account_id : AccountId)
      (old : Room.Object V') (kind : String) (w : World) (s : Session V' B)
      → IsUp w
      → RoomQueries.find_room id s.tables.rooms ≡ some old
      → RoomQueries.is_range old.time ≡ true
      → authorize (room_request to_string old "update" account_id) ≡ ok tt
      → locks kind ≡ some true
      → (r : Response V') × (s' : Session V' B) × (locked_types to_string authorize now id locks
            account_id w s
          ≡ (ok r, s'))
        × (RoomQueries.find_room id s'.tables.rooms ≡ some r.body)
        × (r.body.locked_types kind ≡ some true)
  locked_types-Succeeds now id locks account_id old kind w s up found range granted lock =
      let (r, s', ran, _) =
        locked_types-runs now id locks account_id old (find_room-id id s.tables.rooms old found)
          range granted w s up found in
      let (_, _, there, locked, _, _) =
        locked_types-locks to_string authorize now id locks account_id w s s' r ran in
      (r, s', ran, there, locked kind lock)
