-- ===== src/Db/Event/SetState.antt =====
-- `src/db/event/set_state.rs`: the state of a set, which is the latest event of every label that is
-- not removed. `label_before` is the order of labels in the database's collation, `wrap` the
-- conversion of an `sqlx::Error` by the caller.
pub mod Order
pub mod Latest
pub mod Count
pub mod Attribute
pub mod Returns
use event.Base.{
  ℕ, suc, ℤ, pos, negsuc, ltb_ℤ, eqb_ℤ, ◌==◌, Bool, true, false, ◌&&◌, ◌||◌, not, Option, none,
  some, is_none, String, str_eq, List, [], ◌∷◌, Result, ok, err, length, map,
}
use event.Base.Word.{i64_max}
use event.Db.{Uuid}
use event.Db.Event
use event.Db.Event.Queries.{text_matches, from_rows}
use event.Db.Event.Raw.{RawObject}
use event.Db.Queries.{QueryError, refused, from_decoded, read}
use event.Db.Rows.{select, order_by, take_first, then_by, distinct_on, row_numbers, bool_or}
use event.Db.Session.{Task}

pub record Query : Type 0 where
  pub room_id : Uuid
  pub set : String
  pub attribute : Option String
  pub occurred_at : Option ℤ
  pub original_occurred_at : ℤ
  pub limit : ℤ  -- `i64`

unfoldable pub new_query : Uuid → String → ℤ → ℤ → Query
new_query room_id set original_occurred_at limit = record {
  room_id = room_id;
  set = set;
  attribute = none;
  occurred_at = none;
  original_occurred_at = original_occurred_at;
  limit = limit;
}

-- The setters `attribute` and `occurred_at`, where there is something to set.
unfoldable pub with_attribute : Option String → Query → Query
with_attribute none q = q
with_attribute (some attribute) q = record q { attribute = some attribute }

unfoldable pub with_occurred_at : Option ℤ → Query → Query
with_occurred_at none q = q
with_occurred_at (some occurred_at) q = record q { occurred_at = some occurred_at }

-- `occurred_at < COALESCE(…, 9223372036854775807)`.
abbrev pub occurs_before : Option ℤ → ℤ → Bool
occurs_before none t = ltb_ℤ t i64_max
occurs_before (some occurred_at) t = ltb_ℤ t occurred_at

-- To SQL's grouping, two labels that are `NULL` are the same.
abbrev pub same_label : Option String → Option String → Bool
same_label none none = true
same_label none (some m) = false
same_label (some l) none = false
same_label (some l) (some m) = str_eq l m

-- `label ASC`, where `NULL` comes last.
abbrev pub ascending : (String → String → Bool) → Option String → Option String → Bool
ascending label_before none m = false
ascending label_before (some l) none = true
ascending label_before (some l) (some m) = label_before l m

module _ {V B : Type 0} where
  -- The condition of the inner `WHERE`.
  unfoldable pub is_visible : Query → RawObject V B → Bool
  is_visible q e =
      is_none e.deleted_at
      && (e.room_id == q.room_id
          && (str_eq e.set q.set
              && (ltb_ℤ e.original_occurred_at q.original_occurred_at
                  && occurs_before q.occurred_at e.occurred_at)))

  -- The key of `DISTINCT ON`.
  unfoldable pub same_key : RawObject V B → RawObject V B → Bool
  same_key e d = eqb_ℤ e.original_occurred_at d.original_occurred_at && same_label e.label d.label

  -- `PARTITION BY room_id, set, label`.
  unfoldable pub same_partition : RawObject V B → RawObject V B → Bool
  same_partition e d =
      (e.room_id == d.room_id) && (str_eq e.set d.set && same_label e.label d.label)

  -- `occurred_at DESC`.
  unfoldable pub is_later : RawObject V B → RawObject V B → Bool
  is_later e d = ltb_ℤ d.occurred_at e.occurred_at

  unfoldable pub originates_later : RawObject V B → RawObject V B → Bool
  originates_later e d = ltb_ℤ d.original_occurred_at e.original_occurred_at

  -- `removed_windowed`.
  unfoldable pub removed_windowed : Query → List (RawObject V B) → RawObject V B → Bool
  unfolding bool_or same_partition is_later is_visible select
  removed_windowed q events =
      bool_or same_partition is_later (λ e. e.removed) (select (is_visible q) events)

module _ {V B : Type 0} (label_before : String → String → Bool) where
  abbrev pub by_label : RawObject V B → RawObject V B → Bool
  by_label e d = ascending label_before e.label d.label

  -- `ORDER BY original_occurred_at DESC, label ASC, occurred_at DESC`.
  unfoldable pub state_order : RawObject V B → RawObject V B → Bool
  unfolding then_by originates_later is_later
  state_order = then_by originates_later (then_by by_label is_later)

  -- The rows of the inner `SELECT`.
  unfoldable pub distinct_rows : Query → List (RawObject V B) → List (RawObject V B)
  unfolding state_order same_key is_visible distinct_on order_by select
  distinct_rows q events =
      distinct_on same_key (order_by state_order (select (is_visible q) events))

  -- The rows of the inner `SELECT` with their `reverse_ordinal`.
  unfoldable pub numbered_rows : Query → List (RawObject V B) → List (ℕ × RawObject V B)
  unfolding state_order same_key same_partition is_later is_visible distinct_on order_by select
      row_numbers
  numbered_rows q events =
      distinct_on (λ e d. same_key (e.1) (d.1))
        (order_by (λ e d. state_order (e.1) (d.1))
          (row_numbers same_partition is_later [] (select (is_visible q) events)))

  -- The rows that the outer `WHERE` takes.
  unfoldable pub state_rows : Query → List (RawObject V B) → List (RawObject V B)
  unfolding distinct_rows numbered_rows select
  state_rows q events = elim q.attribute [
    | none ↦ select (λ e. not e.removed) (distinct_rows q events)
    | some attribute ↦
        map (λ e. e.1)
          (select
            (λ e.
              (e.0 == 1) && (text_matches (some attribute) (e.1).attribute && not (e.1).removed))
            (numbered_rows q events))
  ]

  -- The rows that `total_count` counts.
  unfoldable pub counted_rows : Query → List (RawObject V B) → List (RawObject V B)
  unfolding distinct_rows removed_windowed select
  counted_rows q events =
      select (λ e. not (removed_windowed q events e) && text_matches q.attribute e.attribute)
        (distinct_rows q events)

-- `LIMIT`, which may not be negative.
abbrev pub limit_rows : {A E : Type 0} → E → ℤ → List A → Result {0} E (List A)
limit_rows e (pos n) rows = ok (take_first n rows)
limit_rows e (negsuc n) rows = err e

abbrev pub decode_rows :
    {E V B : Type 0}
    → (QueryError → E)
    → (B → Option V)
    → Result {0} E (List (RawObject V B))
    → Result {0} E (List (Event.Object V))
decode_rows wrap into_json (ok rows) = from_decoded wrap (from_rows into_json rows)
decode_rows wrap into_json (err e) = err e

module _ {E V B : Type 0} (label_before : String → String → Bool) (wrap : QueryError → E) where
  unfoldable pub execute : (B → Option V) → Query → Task E V B (List (Event.Object V))
  unfolding read state_rows take_first
  execute into_json q = read wrap (λ t.
      decode_rows wrap into_json
        (limit_rows (wrap refused) q.limit (state_rows label_before q t.events)))

  unfoldable pub total_count : Query → Task E V B ℤ
  unfolding read counted_rows
  total_count q = read wrap (λ t. ok (pos (length (counted_rows label_before q t.events))))
