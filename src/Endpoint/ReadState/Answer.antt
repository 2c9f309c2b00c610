-- ===== src/Endpoint/ReadState/Answer.antt =====
-- What `ReadHandler` of `src/app/endpoint/state.rs` answers.
use event.Base.{
  ℕ, ℤ, pos, ◌≤◌, ◌≤ℤ◌, ltb_ℤ, ◌≡◌, sym, subst, Bool, true, false, Bool-cases, inl, inr, Option,
  is_none, String, str_eq, List, [], ◌∷◌, Result, ok, All, length, arith,
}
use event.Db.{Uuid, AccountId}
use event.Db.Event
use event.Db.Event.SetState.{Query, execute, total_count}
use event.Db.Event.SetState.Returns.{Selects-length, execute-Returns, total_count-Returns}
use event.Db.Session.{World, Session, lift}
use event.Db.Session.Returns.{Returns, >>=-Returns, lift-Returns}
use event.Db.Queries.Laws.{ok_value}
use event.RoomTime.{DateTime, try_from}
use event.Endpoint.CreateEvent.{AuthzRequest, wrap_authz}
use event.Endpoint.Helpers.{ErrorKind, db_query_failed, any, find_room, get_conn}
use event.Endpoint.ReadState.Fields.{state_query-fields}
use event.Endpoint.ReadState.{
  ReadPayload, StateValue, flag, single, collection, State, validate, choose_limit, insert,
  set_value, state_query, add_has_next, read_set, read_sets, read_request, up_to, handle,
}

-- The number of events in a value of the answer.
abbrev pub events_in : {V : Type 0} → StateValue V → ℕ
events_in (flag b) = 0
events_in (single e) = 1
events_in (collection es) = length es

module _ {V' : Type 0} where
  -- No value of the state has more than 100 events.
  abbrev pub IsBounded : State V' → Type 0
  IsBounded = All (λ e. events_in (e.1) ≤ 100)

  insert-IsBounded :
      (key : String) (v : StateValue V') (state : State V')
      → events_in v ≤ 100
      → IsBounded state
      → IsBounded (insert key v state)
  unfolding insert
  insert-IsBounded key v [] h k = (h, tt)
  insert-IsBounded key v ((l, u) ∷ state) h (k, ks) = elim (Bool-cases (str_eq l key)) [
    | inl b ↦ rw (insert, b) (h, ks)
    | inr b ↦ rw (insert, b) (k, insert-IsBounded key v state h ks)
  ]

  events_in-set_value :
      (events : List (Event.Object V')) → length events ≤ 100 → events_in (set_value events) ≤ 100
  unfolding set_value
  events_in-set_value [] h = omega arith
  events_in-set_value (e ∷ es) h = elim (Bool-cases (is_none e.label)) [
    | inl b ↦ rw (set_value, b) (omega arith)
    | inr b ↦ rw (set_value, b) h
  ]

choose_limit-le : (limit : Option ℤ) → choose_limit limit ≤ℤ pos 100
unfolding choose_limit
choose_limit-le limit = ground arith

module _ {X V' B : Type 0} (label_before : String → String → Bool) (into_json : B → Option V') where
  add_has_next-IsBounded :
      (is_only : Bool) (q : Query) (state : State V')
      → Returns {E = ErrorKind X} {B = B}
          (λ t. IsBounded state)
          (add_has_next label_before into_json is_only q state)
          (λ state t. IsBounded state)
  unfolding add_has_next
  add_has_next-IsBounded true q state =
      >>=-Returns _ _ _ (total_count label_before (λ e. db_query_failed) q) _
        (total_count-Returns label_before (λ e. db_query_failed) (λ t. IsBounded state) q)
        (λ n.
          lift-Returns _ _ (ok (insert "has_next" (flag (ltb_ℤ q.limit n)) state)) (λ r t h e.
            subst IsBounded (ok_value e) (insert-IsBounded _ _ state (omega arith) h.0)))
  add_has_next-IsBounded false q state =
      lift-Returns _ _ (ok state) (λ r t h e. subst IsBounded (ok_value e) h)

  read_set-IsBounded :
      (is_only : Bool) (q : Query) (state : State V')
      → q.limit ≤ℤ pos 100
      → Returns {E = ErrorKind X} {B = B}
          (λ t. IsBounded state)
          (read_set label_before into_json is_only q state)
          (λ state t. IsBounded state)
  unfolding read_set
  read_set-IsBounded is_only q state le =
      >>=-Returns _ _ _ (add_has_next label_before into_json is_only q state) _
        (add_has_next-IsBounded is_only q state)
        (λ state.
          >>=-Returns _ _ _ (execute label_before (λ e. db_query_failed) into_json q) _
            (execute-Returns label_before (λ e. db_query_failed) into_json (λ t. IsBounded state) q)
            (λ events.
              lift-Returns _ _ (ok (insert q.set (set_value events) state)) (λ r t (h, k) e.
                subst IsBounded (ok_value e) (
                  insert-IsBounded q.set (set_value events) state
                    (events_in-set_value events
                      (Selects-length label_before into_json q t.events events 100 k le))
                    h))))

  read_sets-IsBounded :
      (is_only : Bool) (query : String → Query) (sets : List String) (state : State V')
      → ((set : String) → (query set).limit ≤ℤ pos 100)
      → Returns {E = ErrorKind X} {B = B}
          (λ t. IsBounded state)
          (read_sets label_before into_json is_only query sets state)
          (λ state t. IsBounded state)
  unfolding read_sets
  read_sets-IsBounded is_only query [] state le =
      lift-Returns _ _ (ok state) (λ r t h e. subst IsBounded (ok_value e) h)
  read_sets-IsBounded is_only query (set ∷ sets) state le =
      >>=-Returns _ _ _ (read_set label_before into_json is_only (query set) state) _
        (read_set-IsBounded is_only (query set) state (le set))
        (λ state. read_sets-IsBounded is_only query sets state le)

  -- If the handler answers, no value of the answer has more than 100 events, whatever limit was
  -- asked for.
  pub handle-IsBounded :
      (to_string : Uuid → String) (authorize : AuthzRequest → Result {0} X Unit) (now : DateTime)
      (room_id : Uuid) (payload : ReadPayload) (account_id : AccountId) (w : World)
      (s s' : Session V' B) (state : State V')
      → handle label_before into_json to_string authorize now room_id payload account_id w s
        ≡ (ok state, s')
      → IsBounded state
  unfolding handle
  handle-IsBounded to_string authorize now room_id payload account_id w s s' state h =
      >>=-Returns (λ t. Unit) (λ _ t. Unit) (λ state t. IsBounded state)
        (lift (validate payload.sets)) _ (λ w s a s' p e. tt)
        (λ _.
          >>=-Returns _ (λ _ t. Unit) _ (find_room room_id any now) _ (λ w s a s' p e. tt)
            (λ room.
              >>=-Returns _ (λ _ t. Unit) _
                (lift (wrap_authz (authorize (read_request to_string room account_id)))) _
                (λ w s a s' p e. tt)
                (λ _.
                  >>=-Returns _ (λ _ t. Unit) _
                    (lift (up_to payload.original_occurred_at (try_from room.time))) _
                    (λ w s a s' p e. tt)
                    (λ t.
                      >>=-Returns _ (λ _ t. Unit) _ get_conn _ (λ w s a s' p e. tt)
                        (λ _ w s a s' p.
                          read_sets-IsBounded _ (state_query payload room.id t) payload.sets []
                            (λ set.
                              subst (λ z. z ≤ℤ pos 100)
                                (sym (state_query-fields payload room.id t set).2)
                                (choose_limit-le payload.limit))
                            w s a s' tt)))))
        w s state s' tt h
