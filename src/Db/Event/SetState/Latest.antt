-- ===== src/Db/Event/SetState/Latest.antt =====
-- What `execute` of `src/db/event/set_state.rs` selects: the latest event of every label.
use event.Base.{
  ◌≡◌, refl, ap, ◌≤ℤ◌, Bool, true, false, Bool-cases, ◌⊎◌, inl, inr, not, Option, none, some,
  String, List, All, In, arith,
}
use event.Db.Event.Raw.{RawObject}
use event.Db.Event.SetState.{
  Query, is_visible, same_key, is_later, originates_later, ascending, state_order, distinct_rows,
  state_rows,
}
use event.Db.Event.SetState.Order.{state_order-IsOrder, same_key-eq, same_key-IsEquivalence}
use event.Db.Rows.{select, order_by, then_by}
use event.Db.Rows.Order.{
  IsOrder, order_by-IsSorted, All-In, In-order_by, All-order_by, In-select, All_self, All-map,
  All-select_both, All-and,
}
use event.Db.Rows.Distinct.{
  IsFirstOfKey, distinct_on-IsFirstOfKey, distinct_on-Represents, All-distinct_on,
}

ascending_self :
    {label_before : String → String → Bool}
    → IsOrder label_before
    → (l : Option String) → ascending label_before l l ≡ false
ascending_self o none = refl
ascending_self o (some l) = ground (arith, o.asym l l)

module _ {V B : Type 0} where
  -- The event is one that the query sees.
  abbrev pub IsSeen : Query → List (RawObject V B) → RawObject V B → Type 0
  IsSeen q events e = In e events × (is_visible q e ≡ true)

  -- No event of its key that the query sees is later.
  abbrev pub IsLatest : Query → List (RawObject V B) → RawObject V B → Type 0
  IsLatest q events e =
      (d : RawObject V B) → IsSeen q events d → same_key e d ≡ true → d.occurred_at ≤ℤ e.occurred_at

  module _ {label_before : String → String → Bool} (o : IsOrder label_before) where
    state_order-le :
        (e d : RawObject V B)
        → same_key e d ≡ true
        → state_order label_before d e ≡ false
        → d.occurred_at ≤ℤ e.occurred_at
    unfolding state_order then_by originates_later is_later
    state_order-le e d h k =
        let (same, label) = same_key-eq e d h in
        ground (
          arith,
          same,
          ap (λ l. ascending label_before l e.label) label,
          ap (λ l. ascending label_before e.label l) label,
          ascending_self o e.label,
        )

    pub distinct_rows-IsSeen :
        (q : Query) (events : List (RawObject V B))
        → All (IsSeen q events) (distinct_rows label_before q events)
    unfolding distinct_rows
    distinct_rows-IsSeen q events = All-distinct_on _ same_key _ (
        All-order_by _ _ _
          (All-select_both _ _ (is_visible q) events (λ e h i. (i, h)) (All_self events)))

    -- Every row of the inner `SELECT` is the latest of its key.
    pub distinct_rows-IsLatest :
        (q : Query) (events : List (RawObject V B))
        → All (IsLatest q events) (distinct_rows label_before q events)
    unfolding distinct_rows
    distinct_rows-IsLatest q events =
        let sorted = order_by (state_order label_before) (select (is_visible q) events) in
        All-map (IsFirstOfKey same_key (state_order label_before) sorted) _ _
          (λ e f d (i, h) r.
            state_order-le e d r
              (All-In _ d sorted f (In-order_by _ d _ (In-select (is_visible q) d events i h)) r))
          (distinct_on-IsFirstOfKey same_key-IsEquivalence (state_order-IsOrder o) sorted (
            order_by-IsSorted (state_order-IsOrder {V = V} {B = B} o)
              (select (is_visible q) events)))

    -- Every event that is seen has a row of its key.
    pub distinct_rows-Represents :
        (q : Query) (events : List (RawObject V B)) (x : RawObject V B)
        → IsSeen q events x
        → (e : RawObject V B) × In e (distinct_rows label_before q events) × (same_key e x ≡ true)
    unfolding distinct_rows
    distinct_rows-Represents q events x (i, h) =
        distinct_on-Represents same_key-IsEquivalence (state_order-IsOrder o) x _
          (In-order_by _ x _ (In-select (is_visible q) x events i h))

    -- If the query asks for no attribute, each event of the state is one that the query sees, is not
    -- removed, and no event of its original time and label that the query sees is later; and an
    -- event that the query sees has a latest one of its original time and label, which is removed
    -- or in the state.
    pub state_rows-IsLatest :
        (q : Query) (events : List (RawObject V B)) (x : RawObject V B)
        → q.attribute ≡ none
        → IsSeen q events x
        → All
            (λ e. IsSeen q events e × (e.removed ≡ false) × IsLatest q events e)
            (state_rows label_before q events)
          × ((e : RawObject V B) × (same_key e x ≡ true)
              × IsSeen q events e
              × IsLatest q events e
              × ((e.removed ≡ true) ⊎ In e (state_rows label_before q events)))
    unfolding state_rows
    state_rows-IsLatest q events x h seen =
        let (e, i, r) = distinct_rows-Represents q events x seen in
        rw (state_rows, h)
          (
            All-select_both (λ e. IsSeen q events e × IsLatest q events e) _ (λ e. not e.removed) _
                (λ e b (seen, latest). (seen, ground arith, latest))
                (All-and _ _ _ (distinct_rows-IsSeen q events) (distinct_rows-IsLatest q events)),
            (
              e,
              r,
              All-In _ e _ (distinct_rows-IsSeen q events) i,
              All-In _ e _ (distinct_rows-IsLatest q events) i,
              elim (Bool-cases e.removed) [
                | inl b ↦ inl b
                | inr b ↦ inr (In-select (λ d. not d.removed) e _ i (rw b refl))
              ],
            ),
          )
