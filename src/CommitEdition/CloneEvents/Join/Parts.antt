-- ===== src/CommitEdition/CloneEvents/Join/Parts.antt =====
-- The rows of the join, part by part (`src/app/operations/commit_edition.rs`).
use event.Base.{
  ◌≡◌, refl, ap, Bool, true, ◌&&◌, not, List, [], ◌∷◌, ◌++◌, map, arith, Bool-cases, inl, inr,
  if◌then◌else◌,
}
use event.Db.Event.Raw.{RawObject}
use event.Db.Change
use event.CommitEdition.CloneEvents.Join.{
  Joined, both, only_event, only_change, names, names_any, matching, event_rows, joined_events,
  unmatched, full_join, not_removal, is_wanted, wanted,
}

append_nil {ℓ} : {A : Type ℓ} (l : List A) → l ++ [] ≡ l
append_nil [] = refl
append_nil (x ∷ l) = ap (λ k. x ∷ k) (append_nil l)

module _ {V' B : Type 0} where
  -- The events that stand alone in rows.
  abbrev pub events_alone : List (Joined V' B) → List (RawObject V' B)
  events_alone [] = []
  events_alone (both e c ∷ rs) = events_alone rs
  events_alone (only_event e ∷ rs) = e ∷ events_alone rs
  events_alone (only_change c ∷ rs) = events_alone rs

  -- The changes that stand alone in rows.
  abbrev pub changes_alone : List (Joined V' B) → List (Change.Object V')
  changes_alone [] = []
  changes_alone (both e c ∷ rs) = changes_alone rs
  changes_alone (only_event e ∷ rs) = changes_alone rs
  changes_alone (only_change c ∷ rs) = c ∷ changes_alone rs

  -- The events with their changes.
  abbrev pub pairs : List (Joined V' B) → List (RawObject V' B × Change.Object V')
  pairs [] = []
  pairs (both e c ∷ rs) = (e, c) ∷ pairs rs
  pairs (only_event e ∷ rs) = pairs rs
  pairs (only_change c ∷ rs) = pairs rs

  abbrev pub names_none : RawObject V' B → List (Change.Object V') → Bool
  names_none e [] = true
  names_none e (c ∷ cs) = not (names c e.id) && names_none e cs

  -- The events that no change names.
  pub untouched : List (RawObject V' B) → List (Change.Object V') → List (RawObject V' B)
  untouched [] cs = []
  untouched (e ∷ es) cs = let rest = untouched es cs in if names_none e cs then e ∷ rest else rest

  -- The changes that name none of the events and are no removals.
  pub added : List (RawObject V' B) → List (Change.Object V') → List (Change.Object V')
  added es [] = []
  added es (c ∷ cs) =
      let rest = added es cs in
      if not (names_any c es) && not_removal c.kind then c ∷ rest else rest

  -- The changes that name the event and are no removals.
  pub changes_of :
      RawObject V' B → List (Change.Object V') → List (RawObject V' B × Change.Object V')
  changes_of e [] = []
  changes_of e (c ∷ cs) =
      let rest = changes_of e cs in
      if names c e.id && not_removal c.kind then (e, c) ∷ rest else rest

  pub changed :
      List (RawObject V' B) → List (Change.Object V') → List (RawObject V' B × Change.Object V')
  changed [] cs = []
  changed (e ∷ es) cs = changes_of e cs ++ changed es cs

  wanted-append : (rs qs : List (Joined V' B)) → wanted (rs ++ qs) ≡ wanted rs ++ wanted qs
  unfolding wanted
  wanted-append [] qs = refl
  wanted-append (r ∷ rs) qs = elim (Bool-cases (is_wanted r)) [
    | inl k ↦ rw (k, wanted-append rs qs) refl
    | inr k ↦ rw (k, wanted-append rs qs) refl
  ]

  events_alone-append :
      (rs qs : List (Joined V' B)) → events_alone (rs ++ qs) ≡ events_alone rs ++ events_alone qs
  events_alone-append [] qs = refl
  events_alone-append (both e c ∷ rs) qs = events_alone-append rs qs
  events_alone-append (only_event e ∷ rs) qs = ap (λ l. e ∷ l) (events_alone-append rs qs)
  events_alone-append (only_change c ∷ rs) qs = events_alone-append rs qs

  changes_alone-append :
      (rs qs : List (Joined V' B)) → changes_alone (rs ++ qs) ≡ changes_alone rs ++ changes_alone qs
  changes_alone-append [] qs = refl
  changes_alone-append (both e c ∷ rs) qs = changes_alone-append rs qs
  changes_alone-append (only_event e ∷ rs) qs = changes_alone-append rs qs
  changes_alone-append (only_change c ∷ rs) qs = ap (λ l. c ∷ l) (changes_alone-append rs qs)

  pairs-append : (rs qs : List (Joined V' B)) → pairs (rs ++ qs) ≡ pairs rs ++ pairs qs
  pairs-append [] qs = refl
  pairs-append (both e c ∷ rs) qs = ap (λ l. (e, c) ∷ l) (pairs-append rs qs)
  pairs-append (only_event e ∷ rs) qs = pairs-append rs qs
  pairs-append (only_change c ∷ rs) qs = pairs-append rs qs

  -- The rows that pair one event with changes.
  wanted_both :
      (e : RawObject V' B) (cs : List (Change.Object V'))
      → (events_alone (wanted (map (both e) cs)) ≡ [])
        × (changes_alone (wanted (map (both e) cs)) ≡ [])
  unfolding wanted
  wanted_both e [] = (refl, refl)
  wanted_both e (c ∷ cs) = elim (Bool-cases (not_removal c.kind)) [
    | inl k ↦ rw k (wanted_both e cs)
    | inr k ↦ rw k (wanted_both e cs)
  ]

  pairs-matching :
      (e : RawObject V' B) (cs : List (Change.Object V'))
      → pairs (wanted (map (both e) (matching e.id cs))) ≡ changes_of e cs
  unfolding wanted matching changes_of
  pairs-matching e [] = refl
  pairs-matching e (c ∷ cs) = ground (arith, pairs-matching e cs)

  pairs-event_rows :
      (e : RawObject V' B) (ms : List (Change.Object V'))
      → pairs (wanted (event_rows e ms)) ≡ pairs (wanted (map (both e) ms))
  unfolding wanted
  pairs-event_rows e [] = refl
  pairs-event_rows e (c ∷ cs) = refl

  changes_alone-event_rows :
      (e : RawObject V' B) (ms : List (Change.Object V'))
      → changes_alone (wanted (event_rows e ms)) ≡ []
  unfolding wanted
  changes_alone-event_rows e [] = refl
  changes_alone-event_rows e (c ∷ cs) = (wanted_both e (c ∷ cs)).1

  events_alone-event_rows :
      (e : RawObject V' B) (cs : List (Change.Object V'))
      → events_alone (wanted (event_rows e (matching e.id cs)))
        ≡ (if names_none e cs then e ∷ [] else [])
  unfolding matching
  events_alone-event_rows e [] = unfold wanted in refl
  events_alone-event_rows e (c ∷ cs) = elim (Bool-cases (names c e.id)) [
    | inl k ↦ rw k ((wanted_both e (c ∷ matching e.id cs)).0)
    | inr k ↦ rw k (events_alone-event_rows e cs)
  ]

  events_alone-joined :
      (es : List (RawObject V' B)) (cs : List (Change.Object V'))
      → events_alone (wanted (joined_events es cs)) ≡ untouched es cs
  unfolding joined_events untouched
  events_alone-joined [] cs = unfold wanted in refl
  events_alone-joined (e ∷ es) cs =
      rw
        (
          wanted-append (event_rows e (matching e.id cs)) (joined_events es cs),
          events_alone-append (wanted (event_rows e (matching e.id cs)))
              (wanted (joined_events es cs)),
          events_alone-event_rows e cs,
          events_alone-joined es cs,
        )
        (ground arith)

  changes_alone-joined :
      (es : List (RawObject V' B)) (cs : List (Change.Object V'))
      → changes_alone (wanted (joined_events es cs)) ≡ []
  unfolding joined_events
  changes_alone-joined [] cs = unfold wanted in refl
  changes_alone-joined (e ∷ es) cs =
      rw
        (
          wanted-append (event_rows e (matching e.id cs)) (joined_events es cs),
          changes_alone-append (wanted (event_rows e (matching e.id cs)))
              (wanted (joined_events es cs)),
          changes_alone-event_rows e (matching e.id cs),
        )
        (changes_alone-joined es cs)

  pairs-joined :
      (es : List (RawObject V' B)) (cs : List (Change.Object V'))
      → pairs (wanted (joined_events es cs)) ≡ changed es cs
  unfolding joined_events changed
  pairs-joined [] cs = unfold wanted in refl
  pairs-joined (e ∷ es) cs =
      rw
        (
          wanted-append (event_rows e (matching e.id cs)) (joined_events es cs),
          pairs-append (wanted (event_rows e (matching e.id cs))) (wanted (joined_events es cs)),
          pairs-event_rows e (matching e.id cs),
          pairs-matching e cs,
          pairs-joined es cs,
        )
        refl

  parts-unmatched :
      (es : List (RawObject V' B)) (cs : List (Change.Object V'))
      → (events_alone (wanted (unmatched es cs)) ≡ [])
        × (changes_alone (wanted (unmatched es cs)) ≡ added es cs)
        × (pairs (wanted (unmatched es cs)) ≡ [])
  unfolding unmatched wanted added
  parts-unmatched es [] = (refl, refl, refl)
  parts-unmatched es (c ∷ cs) = ground (arith, parts-unmatched es cs)

  -- The rows that are copied are the events that no change names, the changes that name none of
  -- the events and are no removals, and each event with each change that names it and is no
  -- removal.
  pub full_join-parts :
      (es : List (RawObject V' B)) (cs : List (Change.Object V'))
      → (events_alone (wanted (full_join es cs)) ≡ untouched es cs)
        × (changes_alone (wanted (full_join es cs)) ≡ added es cs)
        × (pairs (wanted (full_join es cs)) ≡ changed es cs)
  unfolding full_join
  full_join-parts es cs =
      let (p, q, r) = parts-unmatched es cs in
      rw (wanted-append (joined_events es cs) (unmatched es cs)) (
        rw
            (
              events_alone-append (wanted (joined_events es cs)) (wanted (unmatched es cs)),
              p,
              events_alone-joined es cs,
            )
            (append_nil (untouched es cs)),
        rw
            (
              changes_alone-append (wanted (joined_events es cs)) (wanted (unmatched es cs)),
              q,
              changes_alone-joined es cs,
            )
            refl,
        rw
            (
              pairs-append (wanted (joined_events es cs)) (wanted (unmatched es cs)),
              r,
              pairs-joined es cs,
            )
            (append_nil (changed es cs)),
      )
