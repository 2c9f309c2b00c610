-- ===== src/Db/Event/Stored/Elsewhere.antt =====
-- What insertions and deletions in one room leave of the events of the others.
use event.Base.{
  ◌≡◌, refl, sym, ◌∙◌, ==_iff, ℕ, suc, Bool, true, false, not, ◌&&◌, Bool-cases, inl, inr, String,
  str_eq, List, [], ◌∷◌, ◌++◌, All, ◌==◌, is_none, arith,
}
use event.Db.{Uuid}
use event.RoomTime.{DateTime}
use event.Db.Rows.{select}
use event.Db.Event.Raw.{RawObject}
use event.Db.Event.Insert.{InsertQuery}
use event.Db.Event.Queries.{delete_events, is_deleted_by}
use event.Db.Event.Stored.{on_event_insert, stored_row, store_rows}

excluded_and : (b : Bool) → (not b && b) ≡ false
excluded_and true = refl
excluded_and false = refl

still_elsewhere : (b c d : Bool) → (not (b && (c && d)) && not c) ≡ not c
still_elsewhere b true d = ground arith
still_elsewhere b false d = ground arith

module _ {V' B : Type 0} where
  -- The event is in another room.
  abbrev pub is_elsewhere : Uuid → RawObject V' B → Bool
  is_elsewhere room_id e = not (e.room_id == room_id)

  abbrev pub IsIn : Uuid → InsertQuery V' B → Type 0
  IsIn room_id q = q.room_id ≡ room_id

  select-skip :
      (p : RawObject V' B → Bool) (es : List (RawObject V' B)) (n : RawObject V' B)
      → p n ≡ false
      → select p (es ++ n ∷ []) ≡ select p es
  unfolding select
  select-skip p [] n h = rw h refl
  select-skip p (e ∷ es) n h = rw (select-skip p es n h) refl

  stored_row-is_elsewhere :
      (room_id id : Uuid) (now : DateTime) (events : List (RawObject V' B)) (q : InsertQuery V' B)
      → q.room_id ≡ room_id
      → is_elsewhere room_id (stored_row id now events q) ≡ false
  unfolding stored_row on_event_insert
  stored_row-is_elsewhere room_id id now events q h = ground (arith, ==_iff q.room_id room_id)

  -- Insertions in a room leave the others.
  pub store_rows-elsewhere :
      (room_id : Uuid) (ids : ℕ → Uuid) (n : ℕ) (now : DateTime) (events : List (RawObject V' B))
      (qs : List (InsertQuery V' B))
      → All (IsIn room_id) qs
      → select (is_elsewhere room_id) (store_rows ids n now events qs)
        ≡ select (is_elsewhere room_id) events
  unfolding store_rows
  store_rows-elsewhere room_id ids n now events [] h = refl
  store_rows-elsewhere room_id ids n now events (q ∷ qs) (h, hs) =
      store_rows-elsewhere room_id ids (suc n) now (events ++ stored_row (ids n) now events q ∷ [])
        qs hs
      ∙ select-skip (is_elsewhere room_id) events (stored_row (ids n) now events q)
          (stored_row-is_elsewhere room_id (ids n) now events q h)

  select-select :
      (p q : RawObject V' B → Bool) (es : List (RawObject V' B))
      → select p (select q es) ≡ select (λ e. q e && p e) es
  unfolding select
  select-select p q [] = refl
  select-select p q (e ∷ es) = elim (Bool-cases (q e)) [
    | inl h ↦ rw (h, sym (select-select p q es)) refl
    | inr h ↦ rw (h, sym (select-select p q es)) refl
  ]

  select-eq :
      (p q : RawObject V' B → Bool) (es : List (RawObject V' B))
      → ((e : RawObject V' B) → p e ≡ q e)
      → select p es ≡ select q es
  unfolding select
  select-eq p q [] h = refl
  select-eq p q (e ∷ es) h = rw (h e, select-eq p q es h) refl

  select-none : (es : List (RawObject V' B)) → select (λ e. false) es ≡ []
  unfolding select
  select-none [] = refl
  select-none (e ∷ es) = select-none es

  -- A deletion in a room leaves the others.
  pub delete_events-elsewhere :
      (room_id : Uuid) (kind : String) (events : List (RawObject V' B))
      → select (is_elsewhere room_id) (delete_events room_id kind events)
        ≡ select (is_elsewhere room_id) events
  unfolding delete_events
  delete_events-elsewhere room_id kind events =
      select-select (is_elsewhere room_id) _ events
      ∙ select-eq _ (is_elsewhere room_id) events
          (λ e. still_elsewhere (is_none e.deleted_at) (e.room_id == room_id) (str_eq e.kind kind))

  -- No event of the kind stays in the room, but for those that were marked as deleted.
  pub delete_events-gone :
      (room_id : Uuid) (kind : String) (events : List (RawObject V' B))
      → select (is_deleted_by room_id kind) (delete_events room_id kind events) ≡ []
  unfolding delete_events
  delete_events-gone room_id kind events =
      select-select _ _ events
      ∙ select-eq _ (λ e. false) events (λ e. excluded_and (is_deleted_by room_id kind e))
      ∙ select-none events
