-- ===== src/Endpoint/Helpers/Found.antt =====
-- What `find_room` of `src/app/endpoint/helpers.rs` returns.
use event.Base.{
  ◌≡◌, ◌==◌, ==_iff, List, [], ◌∷◌, sym, ◌∙◌, ap, subst, true, false, Bool-cases, inl, inr, Option,
  none, some, Result, ok,
}
use event.Db.{Uuid}
use event.Db.Room
use event.Db.Room.Queries as RoomQueries
use event.Db.Session.{Tables, commit, statement}
use event.Db.Session.Returns.{Returns, >>=-Returns, lift-Returns, statement-Returns}
use event.Db.Queries.Laws.{ok_parts, ok_value, some_value}
use event.RoomTime.{DateTime}
use event.Endpoint.Helpers.{
  ErrorKind, RoomTimeRequirement, any, not_closed, «open», db_conn_acquisition_failed,
  db_query_failed, find_room, found_room, get_conn, required,
}

-- What a requirement asks of the time of a room.
abbrev pub Meets : {V : Type 0} → RoomTimeRequirement → DateTime → Room.Object V → Type 0
Meets any now room = Unit
Meets not_closed now room = Room.is_closed now room.time ≡ false
Meets «open» now room = Room.is_open now room.time ≡ true

pub find_room-id :
    {V : Type 0} (id : Uuid) (rooms : List (Room.Object V)) (room : Room.Object V)
    → RoomQueries.find_room id rooms ≡ some room
    → room.id ≡ id
unfolding RoomQueries.find_room
find_room-id {V} id [] room h = cc
find_room-id {V} id (r ∷ rooms) room h = elim (Bool-cases (r.id == id)) [
  | inl b ↦
      subst (λ (x : Room.Object V). x.id ≡ id) (some_value (rw (RoomQueries.find_room, b) at h))
        ((==_iff r.id id).0 b)
  | inr b ↦ find_room-id id rooms room (rw (RoomQueries.find_room, b) at h)
]

module _ {X V' : Type 0} where
  required-ok :
      (requirement : RoomTimeRequirement) (now : DateTime) (r room : Room.Object V')
      → ◌≡◌ {A = Result (ErrorKind X) (Room.Object V')} (required requirement now r) (ok room)
      → (r ≡ room) × Meets requirement now r
  unfolding required
  required-ok any now r room h = (ok_value h, tt)
  required-ok not_closed now r room h = elim (Bool-cases (Room.is_closed now r.time)) [
    | inl b ↦ cc (rw (required, b) at h)
    | inr b ↦ (ok_value (rw (required, b) at h), b)
  ]
  required-ok «open» now r room h = elim (Bool-cases (Room.is_open now r.time)) [
    | inl b ↦ (ok_value (rw (required, b) at h), b)
    | inr b ↦ cc (rw (required, b) at h)
  ]

  found_room-ok :
      (requirement : RoomTimeRequirement) (now : DateTime) (o : Option (Room.Object V'))
      (room : Room.Object V')
      → ◌≡◌ {A = Result (ErrorKind X) (Room.Object V')} (found_room requirement now o) (ok room)
      → (o ≡ some room) × Meets requirement now room
  found_room-ok requirement now none room h = cc
  found_room-ok requirement now (some r) room h =
      let (e, m) = required-ok requirement now r room h in
      (ap some e, subst (Meets requirement now) e m)

module _ {X V' B : Type 0} where
  pub get_conn-Returns : (P : Tables V' B → Type 0) → Returns P (get_conn {X = X}) (λ u t. P t)
  unfolding get_conn
  get_conn-Returns P =
      statement-Returns P (λ u t. P t) db_conn_acquisition_failed (commit tt)
        (λ ids now t u t' p e. subst P (ok_parts e).1 p)

  -- The room is in the tables, and meets the requirement.
  pub find_room-Returns :
      (P : Tables V' B → Type 0) (id : Uuid) (requirement : RoomTimeRequirement) (now : DateTime)
      → Returns P (find_room {X = X} id requirement now) (λ room t.
        P t × (RoomQueries.find_room id t.rooms ≡ some room) × Meets requirement now room)
  unfolding find_room
  find_room-Returns P id requirement now =
      >>=-Returns P (λ u t. P t) _ get_conn _ (get_conn-Returns P)
        (λ _.
          >>=-Returns P (λ o t. P t × (RoomQueries.find_room id t.rooms ≡ o)) _
            (statement db_query_failed (λ ids now t. ok (RoomQueries.find_room id t.rooms, t))) _
            (statement-Returns P _ db_query_failed _ (λ ids now t o t' p e.
              let (k, q) = ok_parts e in
              (subst P q p, ap (λ u. RoomQueries.find_room id u.rooms) (sym q) ∙ k)))
            (λ o. lift-Returns _ _ (found_room requirement now o) (λ room t (p, same) e.
              let (k, m) = found_room-ok requirement now o room e in (p, same ∙ k, m))))
