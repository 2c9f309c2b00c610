-- ===== src/Db/Event/Stored/Originals.antt =====
-- Stored events carry the time and the author of the original event of their label, which is the
-- one that was created first.
use event.Base.{
  ◌≡◌, refl, ◌∙◌, ap, pos, ◌+ℤ◌, +ℤ_parts, ltb_ℤ, max_ℤ, true, false, Bool-cases, Option-cases, inl,
  inr, none, some, is_none, List, [], ◌∷◌, ◌++◌, All, arith,
}
use event.Db.{Uuid}
use event.RoomTime.{DateTime}
use event.Db.Event.Raw.{RawObject}
use event.Db.Event.Insert.{InsertQuery}
use event.Db.Event.Queries.{is_of}
use event.Db.Event.Stored.{earliest, created_after, on_event_insert, stored_row}
use event.Db.Event.Stored.Earliest.{
  pick, pick_last, earliest-append, earliest-append_other, is_of-key, is_of_key,
}

module _ {V' B : Type 0} where
  -- The event has the time and the author of this one as its original's.
  abbrev pub HasOriginal : RawObject V' B → RawObject V' B → Type 0
  HasOriginal e o =
      (e.original_occurred_at ≡ o.occurred_at) × (e.original_created_by ≡ o.created_by)

  -- If the event has a label and is not deleted, its label has an event that was created first, and
  -- it carries the time and the author of that one.
  abbrev pub CarriesOriginal : List (RawObject V' B) → RawObject V' B → Type 0
  CarriesOriginal events e =
      is_none e.deleted_at ≡ true
      → is_none e.label ≡ false
      → (o : RawObject V' B) × (earliest e.room_id e.set e.label events ≡ some o) × HasOriginal e o

  not_earlier :
      (now : DateTime) (o : RawObject V' B)
      → ltb_ℤ (max_ℤ now (o.created_at +ℤ pos 1000)) o.created_at ≡ false
  not_earlier now o = ground (arith, +ℤ_parts o.created_at (pos 1000))

  stored_row-created_at :
      (events : List (RawObject V' B)) (id : Uuid) (now : DateTime) (q : InsertQuery V' B)
      (o : RawObject V' B)
      → q.created_at ≡ none
      → earliest q.room_id q.set q.label events ≡ some o
      → (stored_row id now events q).created_at ≡ created_after now (some o)
  unfolding stored_row on_event_insert
  stored_row-created_at events id now q o c h = rw (stored_row, on_event_insert, c, h) refl

  -- The row that is stored does not come before the original.
  pick-stored_row :
      (events : List (RawObject V' B)) (id : Uuid) (now : DateTime) (q : InsertQuery V' B)
      (o : RawObject V' B)
      → q.created_at ≡ none
      → earliest q.room_id q.set q.label events ≡ some o
      → pick o (stored_row id now events q) ≡ o
  pick-stored_row events id now q o c h =
      rw (stored_row-created_at events id now q o c h, not_earlier now o) refl

  pick_last-stored_row :
      (events : List (RawObject V' B)) (id : Uuid) (now : DateTime) (q : InsertQuery V' B)
      (e o : RawObject V' B)
      → q.created_at ≡ none
      → earliest e.room_id e.set e.label events ≡ some o
      → is_of e.room_id e.set e.label (stored_row id now events q) ≡ true
      → pick_last (earliest e.room_id e.set e.label events) (stored_row id now events q) ≡ o
  unfolding pick_last stored_row on_event_insert
  pick_last-stored_row events id now q e o c h b =
      let (r, s, l) = is_of-key e.room_id e.set e.label (stored_row id now events q) b in
      rw h (pick-stored_row events id now q o c (rw (r, s, l) h))

  -- Storing one more event keeps what an event carries.
  CarriesOriginal-append :
      (events : List (RawObject V' B)) (id : Uuid) (now : DateTime) (q : InsertQuery V' B)
      (e : RawObject V' B)
      → q.created_at ≡ none
      → CarriesOriginal events e
      → CarriesOriginal (events ++ stored_row id now events q ∷ []) e
  CarriesOriginal-append events id now q e c k live labelled =
      let (o, h, same) = k live labelled in
      elim (Bool-cases (is_of e.room_id e.set e.label (stored_row id now events q))) [
        | inl b ↦ (
          o,
          earliest-append _ _ _ events _ b
              ∙ ap some (pick_last-stored_row events id now q e o c h b),
          same,
        )
        | inr b ↦ (o, earliest-append_other _ _ _ events _ b ∙ h, same)
      ]

  -- The event that is stored carries the original as well.
  stored_row-CarriesOriginal :
      (events : List (RawObject V' B)) (id : Uuid) (now : DateTime) (q : InsertQuery V' B)
      → q.created_at ≡ none
      → CarriesOriginal (events ++ stored_row id now events q ∷ []) (stored_row id now events q)
  unfolding stored_row on_event_insert pick_last
  stored_row-CarriesOriginal events id now q c live labelled =
      elim (Option-cases (earliest q.room_id q.set q.label events)) [
        | inl h ↦ (
          stored_row id now events q,
          earliest-append q.room_id q.set q.label events (stored_row id now events q)
                (is_of_key (stored_row id now events q) refl labelled)
              ∙ rw h refl,
          rw h (refl, refl),
        )
        | inr (o, h) ↦ (
          o,
          earliest-append q.room_id q.set q.label events (stored_row id now events q)
                (is_of_key (stored_row id now events q) refl labelled)
              ∙ ap some (
                  pick_last-stored_row events id now q (stored_row id now events q) o c h
                    (is_of_key (stored_row id now events q) refl labelled)),
          rw h (refl, refl),
        )
      ]

  -- Every event carries its original.
  abbrev pub HasOriginals : List (RawObject V' B) → Type 0
  HasOriginals events = All (CarriesOriginal events) events

  All-append :
      {P Q : RawObject V' B → Type 0} (es : List (RawObject V' B)) (n : RawObject V' B)
      → ((e : RawObject V' B) → P e → Q e)
      → All P es
      → Q n
      → All Q (es ++ n ∷ [])
  All-append [] n f h k = (k, tt)
  All-append (e ∷ es) n f (h, hs) k = (f e h, All-append es n f hs k)

  -- Storing an event whose creation time is left to the database keeps that every event which has
  -- a label and is not deleted carries the time and the author of the event of its label that was
  -- created first.
  pub stored_row-HasOriginals :
      (events : List (RawObject V' B)) (id : Uuid) (now : DateTime) (q : InsertQuery V' B)
      → q.created_at ≡ none
      → HasOriginals events
      → HasOriginals (events ++ stored_row id now events q ∷ [])
  stored_row-HasOriginals events id now q c h =
      All-append events (stored_row id now events q)
        (λ e. CarriesOriginal-append events id now q e c) h
        (stored_row-CarriesOriginal events id now q c)
