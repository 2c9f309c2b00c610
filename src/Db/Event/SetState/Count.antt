-- ===== src/Db/Event/SetState/Count.antt =====
-- What `total_count` of `src/db/event/set_state.rs` counts.
use event.Base.{
  ℤ, ◌≡◌, refl, sym, ◌∙◌, ap, ◌≤ℤ◌, eq_of_parts, Bool, true, false, not, none, some, is_none,
  String, List, All, In, arith,
}
use event.Db.Event.Raw.{RawObject}
use event.Db.Event.SetState.{
  Query, is_visible, same_partition, is_later, distinct_rows, state_rows, removed_windowed,
  counted_rows,
}
use event.Db.Event.SetState.Latest.{IsSeen, IsLatest, distinct_rows-IsSeen, distinct_rows-IsLatest}
use event.Db.Event.SetState.Order.{same_key_of_eq, same_partition-eq, same_partition_self}
use event.Db.Event.Stored.{earliest}
use event.Db.Event.Stored.Originals.{HasOriginals, CarriesOriginal}
use event.Db.Rows.{select}
use event.Db.Rows.Order.{IsOrder, All-In, All-map, All-and, In-select, All_self, All-select_both}
use event.Db.Rows.Distinct.{bool_or_lem, select-eq}

≤ℤ_antisym : (a b : ℤ) → a ≤ℤ b → b ≤ℤ a → a ≡ b
≤ℤ_antisym a b h k = eq_of_parts a b (omega arith)

module _ {V B : Type 0} where
  -- The events that the query sees have labels.
  abbrev pub HasLabels : Query → List (RawObject V B) → Type 0
  HasLabels q events = (e : RawObject V B) → IsSeen q events e → is_none e.label ≡ false

  -- Events of one label that occurred at the same time are both removed, or neither is.
  abbrev pub AgreesAtOnce : Query → List (RawObject V B) → Type 0
  AgreesAtOnce q events =
      (e d : RawObject V B)
      → IsSeen q events e
      → IsSeen q events d
      → e.label ≡ d.label
      → e.occurred_at ≡ d.occurred_at
      → e.removed ≡ d.removed

  same_some : {x y : RawObject V B} → some x ≡ some y → x ≡ y
  same_some h = cc

  same_earliest :
      (events : List (RawObject V B)) (e d : RawObject V B)
      → (e.room_id ≡ d.room_id) × (e.set ≡ d.set) × (e.label ≡ d.label)
      → earliest e.room_id e.set e.label events ≡ earliest d.room_id d.set d.label events
  same_earliest events e d (r, s, l) = rw (r, s, l) refl

  same_original :
      (events : List (RawObject V B)) (e d : RawObject V B)
      → CarriesOriginal events e
      → CarriesOriginal events d
      → is_none e.deleted_at ≡ true
      → is_none d.deleted_at ≡ true
      → is_none e.label ≡ false
      → (e.room_id ≡ d.room_id) × (e.set ≡ d.set) × (e.label ≡ d.label)
      → e.original_occurred_at ≡ d.original_occurred_at
  same_original events e d ce cd le ld h (r, s, l) =
      let (o, eo, te) = ce le h in
      let (p, dp, td) = cd ld (rw (sym l) h) in
      te.0
      ∙ ap (λ x. x.occurred_at) (same_some (sym eo ∙ same_earliest events e d (r, s, l) ∙ dp))
      ∙ sym td.0

  seen-live :
      (q : Query) (events : List (RawObject V B)) (e : RawObject V B)
      → IsSeen q events e
      → is_none e.deleted_at ≡ true
  unfolding is_visible
  seen-live q events e (i, h) = ground arith

  is_later_self : (e : RawObject V B) → is_later e e ≡ false
  unfolding is_later
  is_later_self e = ground arith

  not_later : (e d : RawObject V B) → is_later e d ≡ false → e.occurred_at ≤ℤ d.occurred_at
  unfolding is_later
  not_later e d h = ground arith

  -- Whatever the window has up to the latest event of a label is removed as that one is.
  agreement :
      (q : Query) (events : List (RawObject V B))
      → HasOriginals events
      → HasLabels q events
      → AgreesAtOnce q events
      → (e : RawObject V B) → IsSeen q events e
      → IsLatest q events e
      → All
          (λ d. same_partition e d ≡ true → is_later e d ≡ false → d.removed ≡ e.removed)
          (select (is_visible q) events)
  agreement q events originals labels agree e seen latest =
      All-select_both (λ d. In d events) _ (is_visible q) events
        (λ d h i same later.
          let key = same_partition-eq e d same in
          let original =
            same_original events e d (All-In _ e events originals seen.0)
              (All-In _ d events originals i) (seen-live q events e seen)
              (seen-live q events d (i, h)) (labels e seen) key in
          agree d e (i, h) seen (sym key.2)
            (≤ℤ_antisym d.occurred_at e.occurred_at
              (latest d (i, h) (same_key_of_eq e d original key.2)) (not_later e d later)))
        (All_self events)

  module _ {label_before : String → String → Bool} (o : IsOrder label_before) (q : Query)
      (events : List (RawObject V B)) where
    -- Under these conditions the window decides as the latest event does.
    removed_windowed_lem :
        HasOriginals events
        → HasLabels q events
        → AgreesAtOnce q events
        → All
            (λ e. not (removed_windowed q events e) ≡ not e.removed)
            (distinct_rows label_before q events)
    unfolding removed_windowed
    removed_windowed_lem originals labels agree =
        All-map (λ e. IsSeen q events e × IsLatest q events e) _ _
          (λ e (seen, latest). ap not (
            bool_or_lem same_partition is_later (λ d. d.removed) e (select (is_visible q) events)
              (agreement q events originals labels agree e seen latest) (same_partition_self e)
              (is_later_self e) (In-select (is_visible q) e events seen.0 seen.1)))
          (All-and _ _ _ (distinct_rows-IsSeen o q events) (distinct_rows-IsLatest o q events))

    -- If the query asks for no attribute, every event carries its original, the events that the
    -- query sees have labels, and those of one label that occurred at the same time are removed
    -- together or not at all, then the total count is the number of the events of the state
    -- without its limit.
    pub counted_rows-state_rows :
        q.attribute ≡ none
        → HasOriginals events
        → HasLabels q events
        → AgreesAtOnce q events
        → counted_rows label_before q events ≡ state_rows label_before q events
    unfolding counted_rows state_rows
    counted_rows-state_rows h originals labels agree =
        rw (state_rows, counted_rows, h)
          (select-eq _ _ _ (
            All-map _ _ _ (λ e k. rw k (ground arith))
              (removed_windowed_lem originals labels agree)))
