-- ===== src/Db/Event/Stored/Earliest.antt =====
-- The earliest event of a label, and what one more row changes of it.
use event.Base.{
  ◌≡◌, ==_iff, str_eq_iff, refl, sym, ◌∙◌, ap, ltb_ℤ, Bool, true, false, Bool-cases, inl, inr,
  Option, none, some, is_none, String, List, [], ◌∷◌, ◌++◌, arith, if◌then◌else◌,
}
use event.Db.{Uuid}
use event.Db.Event.Raw.{RawObject}
use event.Db.Event.Queries.{is_of, has_label}
use event.Db.Rows.{select, order_by, insert_ordered, first_row}
use event.Db.Event.Stored.{earliest}

pub has_label-eq : (l m : Option String) → has_label l m ≡ true → l ≡ m
has_label-eq none m h = cc
has_label-eq (some l) none h = cc
has_label-eq (some l) (some m) h = ap some ((str_eq_iff l m).0 h)

has_label_self : (l : Option String) → is_none l ≡ false → has_label l l ≡ true
has_label_self none h = cc
has_label_self (some l) h = (str_eq_iff l l).1 refl

module _ {V' B : Type 0} where
  abbrev pub pick : RawObject V' B → RawObject V' B → RawObject V' B
  pick e d = if ltb_ℤ d.created_at e.created_at then d else e

  abbrev pick_first : RawObject V' B → Option (RawObject V' B) → RawObject V' B
  pick_first e none = e
  pick_first e (some d) = pick e d

  -- The first row of the order, by one pass.
  abbrev least : List (RawObject V' B) → Option (RawObject V' B)
  least [] = none
  least (e ∷ es) = some (pick_first e (least es))

  abbrev by_creation : RawObject V' B → RawObject V' B → Bool
  by_creation e d = ltb_ℤ e.created_at d.created_at

  first_row-insert_ordered :
      (e : RawObject V' B) (ds : List (RawObject V' B))
      → first_row (insert_ordered by_creation e ds) ≡ some (pick_first e (first_row ds))
  unfolding insert_ordered
  first_row-insert_ordered e [] = refl
  first_row-insert_ordered e (d ∷ ds) = elim (Bool-cases (ltb_ℤ d.created_at e.created_at)) [
    | inl h ↦ rw (insert_ordered, h) refl
    | inr h ↦ rw (insert_ordered, h) refl
  ]

  first_row-order_by : (es : List (RawObject V' B)) → first_row (order_by by_creation es) ≡ least es
  unfolding order_by
  first_row-order_by [] = refl
  first_row-order_by (e ∷ es) =
      first_row-insert_ordered e (order_by by_creation es)
      ∙ ap (λ o. some (pick_first e o)) (first_row-order_by es)

  pick_assoc : (e d n : RawObject V' B) → pick e (pick d n) ≡ pick (pick e d) n
  pick_assoc e d n = ground arith

  unfoldable pub pick_last : Option (RawObject V' B) → RawObject V' B → RawObject V' B
  pick_last none n = n
  pick_last (some o) n = pick o n

  pick_first-pick_last :
      (e n : RawObject V' B) (o : Option (RawObject V' B))
      → pick e (pick_last o n) ≡ pick (pick_first e o) n
  unfolding pick_last
  pick_first-pick_last e n none = refl
  pick_first-pick_last e n (some d) = pick_assoc e d n

  least-append :
      (es : List (RawObject V' B)) (n : RawObject V' B)
      → least (es ++ n ∷ []) ≡ some (pick_last (least es) n)
  unfolding pick_last
  least-append [] n = refl
  least-append (e ∷ es) n = rw (least-append es n) (ap some (pick_first-pick_last e n (least es)))

  select-append :
      (p : RawObject V' B → Bool) (es : List (RawObject V' B)) (n : RawObject V' B)
      → select p (es ++ n ∷ []) ≡ (if p n then select p es ++ n ∷ [] else select p es)
  unfolding select
  select-append p [] n = refl
  select-append p (e ∷ es) n = elim (Bool-cases (p n)) [
    | inl h ↦ rw (select-append p es n, h) (ground arith)
    | inr h ↦ rw (select-append p es n, h) refl
  ]

  earliest_lem :
      (room_id : Uuid) (set : String) (label : Option String) (es : List (RawObject V' B))
      → earliest room_id set label es ≡ least (select (is_of room_id set label) es)
  unfolding earliest
  earliest_lem room_id set label es = first_row-order_by _

  -- The earliest row of a label after one more row has been stored under it.
  pub earliest-append :
      (room_id : Uuid) (set : String) (label : Option String) (es : List (RawObject V' B))
      (n : RawObject V' B)
      → is_of room_id set label n ≡ true
      → earliest room_id set label (es ++ n ∷ [])
        ≡ some (pick_last (earliest room_id set label es) n)
  earliest-append room_id set label es n h =
      earliest_lem room_id set label (es ++ n ∷ [])
      ∙ ap least (select-append (is_of room_id set label) es n ∙ rw h refl)
      ∙ least-append (select (is_of room_id set label) es) n
      ∙ ap (λ o. some (pick_last o n)) (sym (earliest_lem room_id set label es))

  pub earliest-append_other :
      (room_id : Uuid) (set : String) (label : Option String) (es : List (RawObject V' B))
      (n : RawObject V' B)
      → is_of room_id set label n ≡ false
      → earliest room_id set label (es ++ n ∷ []) ≡ earliest room_id set label es
  earliest-append_other room_id set label es n h =
      earliest_lem room_id set label (es ++ n ∷ [])
      ∙ ap least (select-append (is_of room_id set label) es n ∙ rw h refl)
      ∙ sym (earliest_lem room_id set label es)

  pub is_of-key :
      (room_id : Uuid) (set : String) (label : Option String) (e : RawObject V' B)
      → is_of room_id set label e ≡ true
      → (e.room_id ≡ room_id) × (e.set ≡ set) × (e.label ≡ label)
  is_of-key room_id set label e h =
      ground (arith, ==_iff e.room_id room_id, str_eq_iff e.set set, has_label-eq e.label label)

  pub is_of_key :
      (e : RawObject V' B)
      → is_none e.deleted_at ≡ true
      → is_none e.label ≡ false
      → is_of e.room_id e.set e.label e ≡ true
  is_of_key e h k =
      ground (arith, ==_iff e.room_id e.room_id, str_eq_iff e.set e.set, has_label_self e.label)
