-- ===== src/Endpoint/CreateEvent/Steps.antt =====
-- The steps of `CreateHandler` ahead of the authorization (`src/app/endpoint/event.rs`).
use event.Base.{
  ◌≡◌, sym, ◌∙◌, ap, subst, true, Bool-cases, inl, inr, Option, none, some, Result, ok, err, String,
}
use event.Db.{Uuid, AgentId, AccountId}
use event.Db.Event
use event.Db.Event.Queries.{original_event}
use event.Db.Room
use event.Db.Room.Queries as RoomQueries
use event.Db.Session.{Tables, Session, World, statement, commit}
use event.Db.Session.Laws.{Keeps, >>=-ok, >>=-Keeps, lift-ok, statement-ok, statement-Keeps}
use event.Db.Queries.Laws.{ok_parts, ok_value}
use event.RoomTime.{DateTime}
use event.Endpoint.Helpers.{
  ErrorKind, db_conn_acquisition_failed, db_query_failed, find_room, found_room, get_conn, required,
  «open»,
}
use event.Endpoint.CreateEvent.{author_of, account_or, find_original, decode_found, with_tables}

found_room-open :
    {X V : Type 0} (now : DateTime) (o : Option (Room.Object V)) (room : Room.Object V)
    → ◌≡◌ {A = Result (ErrorKind X) (Room.Object V)} (found_room «open» now o) (ok room)
    → (o ≡ some room) × (Room.is_open now room.time ≡ true)
unfolding required
found_room-open now none room h = cc
found_room-open now (some r) room h = elim (Bool-cases (Room.is_open now r.time)) [
  | inl b ↦
      let e = ok_value (rw (required, b) at h) in
      (ap some e, ap (λ x. Room.is_open now x.time) (sym e) ∙ b)
  | inr b ↦ cc (rw (required, b) at h)
]

module _ {V' B : Type 0} (X : Type 0) where
  pub get_conn-Keeps : (P : Tables V' B → Type 0) → Keeps P (get_conn {X = X})
  unfolding get_conn
  get_conn-Keeps P =
      statement-Keeps P db_conn_acquisition_failed (commit tt)
        (λ ids now t a t' h e. subst P (ok_parts e).1 h)

  pub find_room-Keeps :
      (P : Tables V' B → Type 0) (id : Uuid) (now : DateTime)
      → Keeps P (find_room {X = X} id «open» now)
  unfolding find_room
  find_room-Keeps P id now = >>=-Keeps P get_conn _ (get_conn-Keeps P) (λ _.
      >>=-Keeps P
        (statement db_query_failed (λ ids now t. ok (RoomQueries.find_room id t.rooms, t))) _
        (statement-Keeps P db_query_failed _ (λ ids now t a t' h e. subst P (ok_parts e).1 h))
        (λ room w s h. h))

  -- The room that is found is in the tables, and open.
  pub find_room-ok :
      (id : Uuid) (now : DateTime) (w : World) (s s' : Session V' B) (room : Room.Object V')
      → find_room {X = X} id «open» now w s ≡ (ok room, s')
      → (RoomQueries.find_room id s.tables.rooms ≡ some room)
        × (Room.is_open now room.time ≡ true)
        × (s.tables ≡ s'.tables)
  unfolding find_room get_conn
  find_room-ok id now w s s' room h =
      let (u, s1, e1, h1) = >>=-ok get_conn _ w s h in
      let (o, s2, e2, h2) =
        >>=-ok (statement db_query_failed (λ ids now t. ok (RoomQueries.find_room id t.rooms, t))) _
          w s1 h1 in
      let k1 = (ok_parts (statement-ok db_conn_acquisition_failed (commit tt) w s e1)).1 in
      let (same, k2) = ok_parts (statement-ok db_query_failed _ w s1 e2) in
      let (found, k3) = lift-ok (found_room «open» now o) w s2 s' h2 in
      let (e, b) = found_room-open now o room found in
      (ap (λ t. RoomQueries.find_room id t.rooms) k1 ∙ same ∙ e, b, k1 ∙ k2 ∙ k3)

  -- The author of an event: that of the original event of its label, if there is one.
  abbrev pub IsAuthor :
      (AgentId → AccountId)
      → (B → Option V')
      → Uuid
      → Option String
      → Option String
      → AccountId
      → Tables V' B
      → AccountId
      → Type 0
  IsAuthor as_account_id into_json room_id (some set) (some label) account_id t author =
      (original : Option (Event.Object V')) × (decode_found {X = X} into_json
          (original_event room_id set label t.events)
        ≡ ok original)
      × (account_or as_account_id account_id original ≡ author)
  IsAuthor as_account_id into_json room_id (some set) none account_id t author = account_id ≡ author
  IsAuthor as_account_id into_json room_id none label account_id t author = account_id ≡ author

  with_tables-ok :
      {A : Type 0} (t t' : Tables V' B) (r : Result (ErrorKind X) A) (a : A)
      → with_tables t r ≡ ok (a, t')
      → (r ≡ ok a) × (t ≡ t')
  with_tables-ok t t' (ok b) a h = (cc, cc)
  with_tables-ok t t' (err e) a h = cc

  find_original-ok :
      (into_json : B → Option V') (room_id : Uuid) (set label : String) (w : World)
      (s s' : Session V' B) (o : Option (Event.Object V'))
      → find_original {X = X} into_json room_id set label w s ≡ (ok o, s')
      → (decode_found {X = X} into_json (original_event room_id set label s.tables.events) ≡ ok o)
        × (s.tables ≡ s'.tables)
  unfolding find_original
  find_original-ok into_json room_id set label w s s' o h =
      with_tables-ok s.tables s'.tables _ o (statement-ok db_query_failed _ w s h)

  find_original-Keeps :
      (P : Tables V' B → Type 0) (into_json : B → Option V') (room_id : Uuid) (set label : String)
      → Keeps P (find_original {X = X} into_json room_id set label)
  unfolding find_original
  find_original-Keeps P into_json room_id set label =
      statement-Keeps P db_query_failed _
        (λ ids now t a t' h e. subst P (with_tables-ok t t' _ a e).1 h)

  pub author_of-Keeps :
      (P : Tables V' B → Type 0) (as_account_id : AgentId → AccountId) (into_json : B → Option V')
      (room_id : Uuid) (set label : Option String) (account_id : AccountId)
      → Keeps P (author_of {X = X} as_account_id into_json room_id set label account_id)
  unfolding author_of
  author_of-Keeps P as_account_id into_json room_id (some set) (some label) account_id =
      >>=-Keeps P get_conn _ (get_conn-Keeps P) (λ _.
        >>=-Keeps P (find_original into_json room_id set label) _
          (find_original-Keeps P into_json room_id set label) (λ o w s h. h))
  author_of-Keeps P as_account_id into_json room_id (some set) none account_id = λ w s h. h
  author_of-Keeps P as_account_id into_json room_id none label account_id = λ w s h. h

  pub author_of-ok :
      (as_account_id : AgentId → AccountId) (into_json : B → Option V') (room_id : Uuid)
      (set label : Option String) (account_id : AccountId) (w : World) (s s' : Session V' B)
      (author : AccountId)
      → author_of {X = X} as_account_id into_json room_id set label account_id w s ≡ (ok author, s')
      → IsAuthor as_account_id into_json room_id set label account_id s.tables author
  unfolding author_of get_conn
  author_of-ok as_account_id into_json room_id (some set) (some label) account_id w s s' author h =
      let (u, s1, e1, h1) = >>=-ok get_conn _ w s h in
      let (o, s2, e2, h2) = >>=-ok (find_original into_json room_id set label) _ w s1 h1 in
      let k1 = (ok_parts (statement-ok db_conn_acquisition_failed (commit tt) w s e1)).1 in
      let (found, k2) = find_original-ok into_json room_id set label w s1 s2 o e2 in
      (
        o,
        ap (λ t. decode_found {X = X} into_json (original_event room_id set label t.events)) k1
            ∙ found,
        ok_value (lift-ok (ok (account_or as_account_id account_id o)) w s2 s' h2).0,
      )
  author_of-ok as_account_id into_json room_id (some set) none account_id w s s' author h =
      ok_value (lift-ok (ok account_id) w s s' h).0
  author_of-ok as_account_id into_json room_id none label account_id w s s' author h =
      ok_value (lift-ok (ok account_id) w s s' h).0
