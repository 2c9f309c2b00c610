-- ===== src/Endpoint/ReadState/HasNext.antt =====
-- What `ReadHandler` of `src/app/endpoint/state.rs` answers for one set.
use event.Base.{
  ℤ, pos, ltb_ℤ, ◌==◌, ◌≡◌, refl, sym, ◌∙◌, ap, subst, Bool, true, false, Option, some, String,
  str_eq, List, [], ◌∷◌, Result, ok, length,
}
use event.Db.{Uuid, AccountId}
use event.Db.Event
use event.Db.Event.Raw.{RawObject}
use event.Db.Event.SetState.{Query, execute, total_count, counted_rows}
use event.Db.Event.SetState.Returns.{Selects, execute-Returns, total_count-Returns}
use event.Db.Room
use event.Db.Room.Queries as RoomQueries
use event.Db.Session.{Tables, World, Session, lift}
use event.Db.Session.Returns.{Returns, >>=-Returns, lift-Returns}
use event.Db.Queries.Laws.{ok_value}
use event.RoomTime.{DateTime, try_from}
use event.Endpoint.CreateEvent.{AuthzRequest, wrap_authz}
use event.Endpoint.CreateEvent.Authorized.{wrap_authz-ok}
use event.Endpoint.Helpers.{ErrorKind, db_query_failed, any, find_room, get_conn}
use event.Endpoint.Helpers.Found.{find_room-Returns, get_conn-Returns}
use event.Endpoint.ReadState.Fields.{state_query-fields}
use event.Endpoint.ReadState.{
  ReadPayload, StateValue, flag, State, validate, insert, set_value, state_query, add_has_next,
  read_set, read_sets, read_request, up_to, handle,
}

insert_set :
    {V' : Type 0} (set : String) (b : Bool) (v : StateValue V')
    → str_eq "has_next" set ≡ false
    → insert set v (insert "has_next" (flag b) []) ≡ ("has_next", flag b) ∷ (set, v) ∷ []
unfolding insert
insert_set {V'} set b v h = rw (insert, h) refl

module _ {V' B : Type 0} (label_before : String → String → Bool) (into_json : B → Option V') where
  -- The answer for the query of a set that is the only one: whether more events were counted than
  -- the limit allows, and the first events of its state.
  abbrev pub Answers : Query → List (RawObject V' B) → State V' → Type 0
  Answers q rows state =
      (events : List (Event.Object V')) × Selects label_before into_json q rows events
      × (state
          ≡ ("has_next", flag (ltb_ℤ q.limit (pos (length (counted_rows label_before q rows)))))
            ∷ (q.set, set_value events)
            ∷ [])

module _ {X V' B : Type 0} (label_before : String → String → Bool) (into_json : B → Option V') where
  read_set-Answers :
      (P : Tables V' B → Type 0) (q : Query)
      → str_eq "has_next" q.set ≡ false
      → Returns {E = ErrorKind X} P
          (read_set label_before into_json true q [])
          (λ state t. P t × Answers label_before into_json q t.events state)
  unfolding read_set add_has_next
  read_set-Answers P q h =
      >>=-Returns P
        (λ state t.
          P t
          × (state
              ≡ insert "has_next"
                  (flag (ltb_ℤ q.limit (pos (length (counted_rows label_before q t.events))))) []))
        _ (add_has_next label_before into_json true q []) _
        (>>=-Returns P _ _ (total_count label_before (λ e. db_query_failed) q) _
          (total_count-Returns label_before (λ e. db_query_failed) P q)
          (λ n.
            lift-Returns _ _ (ok (insert "has_next" (flag (ltb_ℤ q.limit n)) [])) (λ r t (p, c) e. (
              p,
              sym (ok_value e) ∙ ap (λ m. insert "has_next" (flag (ltb_ℤ q.limit m)) []) (sym c),
            ))))
        (λ state.
          >>=-Returns _ _ _ (execute label_before (λ e. db_query_failed) into_json q) _
            (execute-Returns label_before (λ e. db_query_failed) into_json _ q)
            (λ events.
              lift-Returns _ _ (ok (insert q.set (set_value events) state))
                (λ r t ((p, same), sel) e. (
                  p,
                  (
                    events,
                    sel,
                    sym (ok_value e)
                        ∙ ap (insert q.set (set_value events)) same
                        ∙ insert_set q.set _ _ h,
                  ),
                ))))

  read_sets-Answers :
      (P : Tables V' B → Type 0) (query : String → Query) (set : String)
      → str_eq "has_next" (query set).set ≡ false
      → Returns {E = ErrorKind X} P
          (read_sets label_before into_json true query (set ∷ []) [])
          (λ state t. P t × Answers label_before into_json (query set) t.events state)
  unfolding read_sets
  read_sets-Answers P query set h =
      >>=-Returns P _ _ (read_set label_before into_json true (query set) []) _
        (read_set-Answers P (query set) h)
        (λ state.
          lift-Returns _
            (λ state t. P t × Answers label_before into_json (query set) t.events state) (ok state)
            (λ r t (p, q) e.
              subst (λ state. P t × Answers label_before into_json (query set) t.events state)
                (ok_value e) (p, q)))

  -- The tables are as they were and have the room, which the account may read.
  abbrev Granted :
      (Uuid → String)
      → (AuthzRequest → Result {0} X Unit)
      → Uuid
      → AccountId
      → Tables V' B
      → Room.Object V'
      → Tables V' B
      → Type 0
  Granted to_string authorize room_id account_id before room t =
      (t ≡ before)
      × (RoomQueries.find_room room_id t.rooms ≡ some room)
      × (authorize (read_request to_string room account_id) ≡ ok tt)

  -- And this is the time up to which the state is read.
  abbrev Timed :
      (Uuid → String)
      → (AuthzRequest → Result {0} X Unit)
      → Uuid
      → ReadPayload
      → AccountId
      → Tables V' B
      → Room.Object V'
      → ℤ
      → Tables V' B
      → Type 0
  Timed to_string authorize room_id payload account_id before room t0 t =
      Granted to_string authorize room_id account_id before room t
      × (up_to {X = X} payload.original_occurred_at (try_from room.time) ≡ ok t0)

  -- The answer for one set: of the room with the id, with the rights that the service granted.
  abbrev pub AnswersOne :
      (Uuid → String)
      → (AuthzRequest → Result {0} X Unit)
      → Uuid
      → ReadPayload
      → AccountId
      → String
      → Tables V' B
      → State V'
      → Type 0
  AnswersOne to_string authorize room_id payload account_id set t state =
      (room : Room.Object V') × (original_occurred_at : ℤ) × (RoomQueries.find_room room_id t.rooms
        ≡ some room)
      × (authorize (read_request to_string room account_id) ≡ ok tt)
      × (up_to {X = X} payload.original_occurred_at (try_from room.time) ≡ ok original_occurred_at)
      × Answers label_before into_json (state_query payload room.id original_occurred_at set)
          t.events state

  -- If one set is asked for, which is not named "has_next", and the handler answers, then the room
  -- is in the tables, the authorization service has granted the account to read its classroom, the
  -- tables are as they were, and the answer is the flag, which says whether the total count exceeds
  -- the limit, and the first events of the state of the set, as many as the limit allows.
  pub handle-AnswersOne :
      (to_string : Uuid → String) (authorize : AuthzRequest → Result {0} X Unit) (now : DateTime)
      (room_id : Uuid) (payload : ReadPayload) (account_id : AccountId) (set : String) (w : World)
      (s s' : Session V' B) (state : State V')
      → payload.sets ≡ set ∷ []
      → str_eq "has_next" set ≡ false
      → handle label_before into_json to_string authorize now room_id payload account_id w s
        ≡ (ok state, s')
      → (s'.tables ≡ s.tables)
        × AnswersOne to_string authorize room_id payload account_id set s'.tables state
  unfolding handle
  handle-AnswersOne to_string authorize now room_id payload account_id set w s s' state one h e =
      >>=-Returns (λ t. t ≡ s.tables) (λ _ t. t ≡ s.tables)
        (λ state t.
          (t ≡ s.tables) × AnswersOne to_string authorize room_id payload account_id set t state)
        (lift (validate payload.sets)) _ (lift-Returns _ _ (validate payload.sets) (λ u t p k. p))
        (λ _.
          >>=-Returns _ _ _ (find_room room_id any now) _
            (find_room-Returns (λ t. t ≡ s.tables) room_id any now)
            (λ room.
              >>=-Returns _ (λ _ t. Granted to_string authorize room_id account_id s.tables room t)
                _ (lift (wrap_authz (authorize (read_request to_string room account_id)))) _
                (lift-Returns _ _ (wrap_authz (authorize (read_request to_string room account_id)))
                  (λ u t p k. (p.0, p.1, wrap_authz-ok _ u k)))
                (λ _.
                  >>=-Returns _
                    (λ t0 t.
                      Timed to_string authorize room_id payload account_id s.tables room t0 t)
                    _ (lift (up_to payload.original_occurred_at (try_from room.time))) _
                    (lift-Returns _ _ (up_to payload.original_occurred_at (try_from room.time))
                      (λ t0 t p k. (p, k)))
                    (λ t0. >>=-Returns _ _ _ get_conn _ (get_conn-Returns _) (λ _ w1 s1 a s2 p e.
                      let (q, answers) =
                        subst
                          (λ sets.
                            Returns {E = ErrorKind X}
                              (λ t.
                                Timed to_string authorize room_id payload account_id s.tables room
                                  t0 t)
                              (read_sets label_before into_json (length sets == 1)
                                (state_query payload room.id t0) sets [])
                              (λ state t.
                                Timed to_string authorize room_id payload account_id s.tables room
                                  t0 t
                                × Answers label_before into_json
                                    (state_query payload room.id t0 set) t.events state))
                          (sym one)
                          (read_sets-Answers _ (state_query payload room.id t0) set
                            (rw ((state_query-fields payload room.id t0 set).0) h))
                          w1 s1 a s2 p e in
                      ((q.0).0, (room, t0, (q.0).1, (q.0).2, q.1, answers)))))))
        w s state s' refl e
