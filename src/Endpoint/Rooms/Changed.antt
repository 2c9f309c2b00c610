-- ===== src/Endpoint/Rooms/Changed.antt =====
-- What an update makes of the room in the tables (`UpdateQuery` of `src/db/room.rs`), and what the
-- steps of the handlers of `src/app/endpoint/room.rs` return.
use event.RoomTime.{DateTime}
use event.Base.{
  ℕ, ◌≡◌, ◌==◌, sym, ◌∙◌, ap, subst, Bool-cases, inl, inr, Option-cases, some, List, [], ◌∷◌,
  Result, ok, String,
}
use event.Db.{Uuid}
use event.Db.Room
use event.Db.Room.Queries as RoomQueries
use event.Db.Queries.{QueryError, refused, update_room, update_statement}
use event.Db.Queries.Laws.{ok_parts, some_value}
use event.Db.Session.{Tables}
use event.Db.Session.Returns.{Returns, lift-Returns, statement-Returns}
use event.Endpoint.CreateEvent.{AuthzRequest, wrap_authz}
use event.Endpoint.CreateEvent.Authorized.{wrap_authz-ok}
use event.Endpoint.Rooms.Handlers.{allowed}

-- The room that is found after the update is the updated one.
pub find_room-update_rooms :
    {V : Type 0} (q : RoomQueries.UpdateQuery V) (rooms : List (Room.Object V))
    (room : Room.Object V)
    → RoomQueries.find_room q.id rooms ≡ some room
    → RoomQueries.find_room q.id (RoomQueries.update_rooms q rooms)
      ≡ some (RoomQueries.updated_room q room)
unfolding RoomQueries.find_room RoomQueries.update_rooms RoomQueries.updated_room
find_room-update_rooms {V} q [] room h = cc
find_room-update_rooms {V} q (r ∷ rooms) room h = elim (Bool-cases (r.id == q.id)) [
  | inl b ↦
      rw (RoomQueries.update_rooms, RoomQueries.find_room, b)
        (rw b (
          ap (λ (x : Room.Object V). some (RoomQueries.updated_room q x))
            (some_value (rw (RoomQueries.find_room, b) at h))))
  | inr b ↦
      rw (RoomQueries.update_rooms, RoomQueries.find_room, b)
        (rw b (find_room-update_rooms q rooms room (rw (RoomQueries.find_room, b) at h)))
]

module _ {V' B : Type 0} where
  -- The room was in the tables, is updated, and is found there.
  abbrev pub IsUpdated :
      (Tables V' B → Type 0) → RoomQueries.UpdateQuery V' → Room.Object V' → Tables V' B → Type 0
  IsUpdated P q room t' =
      (t : Tables V' B) × (old : Room.Object V') × P t
      × (RoomQueries.find_room q.id t.rooms ≡ some old)
      × (RoomQueries.updated_room q old ≡ room)
      × (record t { rooms = RoomQueries.update_rooms q t.rooms } ≡ t')

  -- What held of the tables regardless of them holds after the update.
  pub IsUpdated-holds :
      (P : Tables V' B → Type 0) (G : Type 0) (q : RoomQueries.UpdateQuery V')
      (room : Room.Object V') (t' : Tables V' B)
      → ((t : Tables V' B) → P t → G)
      → IsUpdated P q room t'
      → G
  IsUpdated-holds P G q room t' f (t, r, p, found, same, kept) = f t p

  pub IsUpdated-found :
      (P : Tables V' B → Type 0) (q : RoomQueries.UpdateQuery V') (old room : Room.Object V')
      (t' : Tables V' B)
      → ((t : Tables V' B) → P t → RoomQueries.find_room q.id t.rooms ≡ some old)
      → IsUpdated P q room t'
      → (RoomQueries.updated_room q old ≡ room) × (RoomQueries.find_room q.id t'.rooms ≡ some room)
  IsUpdated-found P q old room t' found (t, r, p, f, same, kept) =
      let one = some_value (sym f ∙ found t p) in
      (
        ap (RoomQueries.updated_room q) (sym one) ∙ same,
        subst (λ (u : Tables V' B). RoomQueries.find_room q.id u.rooms ≡ some room) kept
            (find_room-update_rooms q t.rooms r f ∙ ap some same),
      )

module _ {E V' B : Type 0} (wrap : QueryError → E) where
  update_statement-ok :
      (q : RoomQueries.UpdateQuery V') (ids : ℕ → Uuid) (now : DateTime) (t t' : Tables V' B)
      (room : Room.Object V')
      → update_statement wrap q ids now t ≡ ok (room, t')
      → (old : Room.Object V') × (RoomQueries.find_room q.id t.rooms ≡ some old)
        × (RoomQueries.updated_room q old ≡ room)
        × (record t { rooms = RoomQueries.update_rooms q t.rooms } ≡ t')
  unfolding update_statement
  update_statement-ok q ids now t t' room h =
      elim (Option-cases (RoomQueries.find_room q.id t.rooms)) [
        | inl f ↦ cc (rw (update_statement, f) at h)
        | inr (old, f) ↦
            elim (Bool-cases (RoomQueries.is_range (RoomQueries.updated_room q old).time)) [
              | inl b ↦
                  let (same, kept) = ok_parts (rw (update_statement, f, b) at h) in
                  (old, f, same, kept)
              | inr b ↦ cc (rw (update_statement, f, b) at h)
            ]
      ]

  pub update_room-Returns :
      (P : Tables V' B → Type 0) (q : RoomQueries.UpdateQuery V')
      → Returns P (update_room wrap q) (IsUpdated P q)
  unfolding update_room
  update_room-Returns P q =
      statement-Returns P (IsUpdated P q) (wrap refused) (update_statement wrap q)
        (λ ids now t room t' p e.
          let (old, found, same, kept) = update_statement-ok q ids now t t' room e in
          (t, old, p, found, same, kept))

module _ {X V' B : Type 0} (to_string : Uuid → String)
    (authorize : AuthzRequest → Result {0} X Unit) where
  -- What goes on after the authorization was granted.
  pub allowed-Returns :
      (P : Tables V' B → Type 0) (request : AuthzRequest)
      → Returns P (allowed to_string authorize request) (λ u t. P t × (authorize request ≡ ok tt))
  unfolding allowed
  allowed-Returns P request =
      lift-Returns P _ (wrap_authz (authorize request)) (λ u t p e. (p, wrap_authz-ok _ u e))
