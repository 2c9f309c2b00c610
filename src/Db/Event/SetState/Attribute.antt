-- ===== src/Db/Event/SetState/Attribute.antt =====
-- What `execute` of `src/db/event/set_state.rs` selects where the query asks for an attribute.
use event.Base.{
  ℕ, ◌≡◌, ==_iff, str_eq_iff, refl, ◌≤ℤ◌, Bool, true, false, Option, none, some, String, List, All,
  arith,
}
use event.Db.Event.Queries.{text_matches}
use event.Db.Event.Raw.{RawObject}
use event.Db.Event.SetState.{Query, is_visible, same_partition, is_later, numbered_rows, state_rows}
use event.Db.Event.SetState.Latest.{IsSeen}
use event.Db.Event.SetState.Order.{is_later-IsOrder, same_label_self}
use event.Db.Rows.{select}
use event.Db.Rows.Order.{All-In, All-order_by, In-select, All_self, All-select_both, All-and}
use event.Db.Rows.Distinct.{IsFirstOfKey, All-distinct_on}
use event.Db.Rows.Numbers.{row_numbers-IsFirstOfKey, All-row_numbers, All-map_list}

pub text_matches-eq :
    (a : String) (column : Option String) → text_matches (some a) column ≡ true → column ≡ some a
text_matches-eq a none h = cc
text_matches-eq a (some c) h = rw ((str_eq_iff c a).0 h) refl

module _ {V B : Type 0} where
  -- No event of its label that the query sees is later.
  abbrev pub IsLatestOfLabel : Query → List (RawObject V B) → RawObject V B → Type 0
  IsLatestOfLabel q events e =
      (d : RawObject V B) → IsSeen q events d → e.label ≡ d.label → d.occurred_at ≤ℤ e.occurred_at

  same_partition-visible :
      (q : Query) (e d : RawObject V B)
      → is_visible q e ≡ true
      → is_visible q d ≡ true
      → e.label ≡ d.label
      → same_partition e d ≡ true
  unfolding is_visible same_partition
  same_partition-visible q e d h k l = ground (
    arith,
    rw l at (same_label_self e.label),
    ==_iff e.room_id q.room_id,
    ==_iff d.room_id q.room_id,
    ==_iff e.room_id d.room_id,
    str_eq_iff e.set q.set,
    str_eq_iff d.set q.set,
    str_eq_iff e.set d.set,
  )

  abbrev IsFirstNumbered : Query → List (RawObject V B) → ℕ × RawObject V B → Type 0
  IsFirstNumbered q events e =
      (e.0 ≡ 1 → IsFirstOfKey same_partition is_later (select (is_visible q) events) (e.1))
      × IsSeen q events (e.1)

  numbered_rows-IsFirst :
      (label_before : String → String → Bool) (q : Query) (events : List (RawObject V B))
      → All (IsFirstNumbered q events) (numbered_rows label_before q events)
  unfolding numbered_rows
  numbered_rows-IsFirst label_before q events = All-distinct_on _ _ _ (
      All-order_by _ _ _ (
        All-and _ _ _
          (row_numbers-IsFirstOfKey is_later-IsOrder same_partition (select (is_visible q) events))
          (All-row_numbers is_later-IsOrder same_partition (IsSeen q events) _ _
            (All-select_both _ _ (is_visible q) events (λ e h i. (i, h)) (All_self events)))))

  IsFirstNumbered-IsLatest :
      (q : Query) (events : List (RawObject V B)) (e : ℕ × RawObject V B)
      → IsFirstNumbered q events e
      → e.0 ≡ 1
      → IsLatestOfLabel q events (e.1)
  unfolding is_later
  IsFirstNumbered-IsLatest q events (n, e) (f, seen) h d (i, v) l =
      let earlier =
        All-In _ d _ (f h) (In-select (is_visible q) d events i v)
          (same_partition-visible q e d seen.1 v l) in
      ground arith

  -- If the query asks for an attribute, each event of the state is one that the query sees, has the
  -- attribute, is not removed, and no event of its label that the query sees is later, with the
  -- attribute or without it.
  pub state_rows-IsLatestOfLabel :
      (label_before : String → String → Bool) (q : Query) (events : List (RawObject V B))
      (attribute : String)
      → q.attribute ≡ some attribute
      → All
          (λ e.
            IsSeen q events e
            × (e.attribute ≡ some attribute)
            × (e.removed ≡ false)
            × IsLatestOfLabel q events e)
          (state_rows label_before q events)
  unfolding state_rows
  state_rows-IsLatestOfLabel label_before q events attribute h =
      rw (state_rows, h)
        (All-map_list _ (λ e. e.1) _
          (All-select_both (IsFirstNumbered q events) _ _ (numbered_rows label_before q events)
            (λ e b f. (
              f.1,
              text_matches-eq attribute (e.1).attribute (ground arith),
              ground arith,
              IsFirstNumbered-IsLatest q events e f (ground (arith, ==_iff (e.0) 1)),
            ))
            (numbered_rows-IsFirst label_before q events)))
