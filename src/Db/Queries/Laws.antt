-- ===== src/Db/Queries/Laws.antt =====
-- What the tables are after a statement that went through.
use event.Base.{
  ◌≡◌, sym, ◌∙◌, ap, subst, ℕ, Bool-cases, inl, inr, Option, some, String, List, [], ◌∷◌, ◌++◌,
  Result, ok, err,
}
use event.Db.{Uuid}
use event.RoomTime.{DateTime}
use event.Db.Room
use event.Db.Room.Queries.{InsertQuery, inserted_room, is_range}
use event.Db.Event.Queries.{ListQuery, list_events, delete_events}
use event.Db.Event
use event.Db.Event.Raw.{DecodeError}
use event.Db.Change
use event.Db.Change.Queries as ChangeQueries
use event.Db.Session.{Tables, Session, World}
use event.Db.Session.Returns.{Returns}
use event.Db.Session.Laws.{Keeps, statement-ok, statement-Keeps}
use event.Db.Queries.{
  QueryError, refused, insert_room, room_statement, from_decoded, events_of, changes_of, read,
  delete_kind,
}

pub some_value : {A : Type 0} {a b : A} → some a ≡ some b → a ≡ b
some_value h = cc

-- The value of a result.
pub ok_value : {E A : Type 0} {a b : A} → ◌≡◌ {A = Result E A} (ok a) (ok b) → a ≡ b
ok_value h = cc

pub from_decoded-ok :
    {E A : Type 0} (wrap : QueryError → E) (r : Result DecodeError A) {a : A}
    → from_decoded wrap r ≡ ok a
    → r ≡ ok a
from_decoded-ok wrap (ok a) h = cc
from_decoded-ok wrap (err e) h = cc

pub ok_parts :
    {E V B A : Type 0} {a b : A} {t u : Tables V B}
    → ◌≡◌ {A = Result E (A × Tables V B)} (ok (a, t)) (ok (b, u))
    → (a ≡ b) × (t ≡ u)
ok_parts h = (cc, cc)

module _ {E V' B : Type 0} (wrap : QueryError → E) where
  room_parts :
      {r room : Room.Object V'} (t : Tables V' B) {t' : Tables V' B}
      → ◌≡◌ {A = Result E (Room.Object V' × Tables V' B)}
          (ok (r, record t { rooms = t.rooms ++ r ∷ [] }))
          (ok (room, t'))
      → (r ≡ room) × (record t { rooms = t.rooms ++ room ∷ [] } ≡ t')
  room_parts {r} {room} t h =
      let (e, k) = ok_parts h in (e, ap (λ x. record t { rooms = t.rooms ++ x ∷ [] }) (sym e) ∙ k)

  room_statement-ok :
      (q : InsertQuery V') (ids : ℕ → Uuid) (now : DateTime) (t t' : Tables V' B)
      (room : Room.Object V')
      → room_statement wrap q ids now t ≡ ok (room, t')
      → (inserted_room (ids 0) now q ≡ room) × (record t { rooms = t.rooms ++ room ∷ [] } ≡ t')
  unfolding room_statement
  room_statement-ok q ids now t t' room h = elim (Bool-cases (is_range q.time)) [
    | inl b ↦ room_parts t (rw (room_statement, b) at h)
    | inr b ↦ cc (rw (room_statement, b) at h)
  ]

  read_statement-ok :
      {A : Type 0} (r : Result E A) (t t' : Tables V' B) (a : A)
      → ◌≡◌ {A = Result E (A × Tables V' B)}
          (elim r [ ok b ↦ ok (b, t) | err e ↦ err e ])
          (ok (a, t'))
      → (r ≡ ok a) × (t ≡ t')
  read_statement-ok (ok b) t t' a h = (cc, cc)
  read_statement-ok (err e) t t' a h = cc

  -- A query that reads leaves the tables.
  pub read-ok :
      {A : Type 0} (f : Tables V' B → Result E A) (w : World) (s s' : Session V' B) {a : A}
      → read wrap f w s ≡ (ok a, s')
      → (f s.tables ≡ ok a) × (s.tables ≡ s'.tables)
  unfolding read
  read-ok f w s s' {a} h =
      read_statement-ok (f s.tables) s.tables s'.tables a (statement-ok (wrap refused) _ w s h)

  pub delete_kind-ok :
      (room_id : Uuid) (kind : String) (w : World) (s s' : Session V' B)
      → delete_kind wrap room_id kind w s ≡ (ok tt, s')
      → record s.tables { events = delete_events room_id kind s.tables.events } ≡ s'.tables
  unfolding delete_kind
  delete_kind-ok room_id kind w s s' h = (ok_parts (statement-ok (wrap refused) _ w s h)).1

  -- The room that is inserted.
  pub insert_room-ok :
      (q : InsertQuery V') (w : World) (s s' : Session V' B) {room : Room.Object V'}
      → insert_room wrap q w s ≡ (ok room, s')
      → (inserted_room (w.id s.count 0) (w.now s.count) q ≡ room)
        × (record s.tables { rooms = s.tables.rooms ++ room ∷ [] } ≡ s'.tables)
  unfolding insert_room
  insert_room-ok q w s s' h =
      room_statement-ok q (w.id s.count) (w.now s.count) s.tables s'.tables _
        (statement-ok (wrap refused) _ w s h)

  -- The events that are listed are those of the tables.
  pub events_of-ok :
      (into_json : B → Option V') (q : ListQuery) (w : World) (s s' : Session V' B)
      {events : List (Event.Object V')}
      → events_of wrap into_json q w s ≡ (ok events, s')
      → (list_events into_json q s.tables.events ≡ ok events) × (s.tables ≡ s'.tables)
  unfolding events_of
  events_of-ok into_json q w s s' h =
      let (e, t) = read-ok (λ t. from_decoded wrap (list_events into_json q t.events)) w s s' h in
      (from_decoded-ok wrap (list_events into_json q s.tables.events) e, t)

  pub changes_of-ok :
      (q : ChangeQueries.ListQuery) (w : World) (s s' : Session V' B)
      {changes : List (Change.Object V')}
      → changes_of wrap q w s ≡ (ok changes, s')
      → (ChangeQueries.list_changes q s.tables.changes ≡ changes) × (s.tables ≡ s'.tables)
  unfolding changes_of
  changes_of-ok q w s s' h =
      let (e, t) = read-ok (λ t. ok (ChangeQueries.list_changes q t.changes)) w s s' h in
      (ok_value e, t)

  -- A query that reads keeps what holds of the tables.
  pub read-Keeps :
      {A : Type 0} (P : Tables V' B → Type 0) (f : Tables V' B → Result E A) → Keeps P (read wrap f)
  unfolding read
  read-Keeps P f =
      statement-Keeps P (wrap refused) _
        (λ ids now t a t' h e. subst P (read_statement-ok (f t) t t' a e).1 h)

  -- A query that reads gives what it is of the tables, and leaves them.
  pub read-Returns :
      {A : Type 0} (P : Tables V' B → Type 0) (f : Tables V' B → Result E A)
      → Returns P (read wrap f) (λ a t. P t × (f t ≡ ok a))
  read-Returns P f w s a s' p e =
      let (same, kept) = read-ok f w s s' e in (subst P kept p, subst (λ t. f t ≡ ok a) kept same)
