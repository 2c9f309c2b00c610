-- ===== src/Db/Event/Queries.antt =====
-- The queries of `src/db/event/mod.rs` on the table of events.
use event.Base.{
  ℕ, ℤ, ltb_ℤ, eqb_ℤ, ◌==◌, Bool, true, false, ◌&&◌, ◌||◌, not, Option, none, some, is_none, String,
  str_eq, List, [], ◌∷◌, Result, ok, ◌>>=◌,
}
use event.Db.{Uuid}
use event.Db.Rows.{select, order_by, take_first, first_row}
use event.Db.Event.{Object}
use event.Db.Event.Raw.{RawObject, DecodeError, from_raw}

pub data Direction : Type 0 where
  forward backward : Direction

-- `KindFilter`.
pub data KindFilter : Type 0 where
  single : String → KindFilter
  multiple : List String → KindFilter

pub record ListQuery : Type 0 where
  pub room_id : Option Uuid
  pub kind : Option KindFilter
  pub set : Option String
  pub label : Option String
  pub attribute : Option String
  pub last_occurred_at : Option ℤ
  pub direction : Direction
  pub limit : Option ℕ

abbrev pub default_list_limit : ℕ
default_list_limit = 100000

-- `ListQuery::new().room_id(…)`.
abbrev pub list_of_room : Uuid → ListQuery
list_of_room room_id = record {
  room_id = some room_id;
  kind = none;
  set = none;
  label = none;
  attribute = none;
  last_occurred_at = none;
  direction = forward;
  limit = none;
}

abbrev pub kinds_of : Option KindFilter → List String
kinds_of none = []
kinds_of (some (single kind)) = kind ∷ []
kinds_of (some (multiple kinds)) = kinds

-- `kind = ANY(…)`.
abbrev pub any_of : List String → String → Bool
any_of [] kind = false
any_of (k ∷ ks) kind = str_eq kind k || any_of ks kind

-- The filter on kinds, which an empty list lifts.
abbrev pub kind_matches : List String → String → Bool
kind_matches [] kind = true
kind_matches (k ∷ ks) kind = any_of (k ∷ ks) kind

-- `$n IS NULL OR column = $n`, of a column that may be `NULL`.
abbrev pub text_matches : Option String → Option String → Bool
text_matches none column = true
text_matches (some t) none = false
text_matches (some t) (some c) = str_eq c t

abbrev pub id_matches : Option Uuid → Uuid → Bool
id_matches none id = true
id_matches (some i) id = id == i

-- The condition on `occurred_at`.
abbrev pub is_past : Direction → Option ℤ → ℤ → Bool
is_past direction none occurred_at = true
is_past forward (some last) occurred_at = ltb_ℤ last occurred_at
is_past backward (some last) occurred_at = ltb_ℤ occurred_at last

abbrev pub limit_of : Option ℕ → ℕ
limit_of none = default_list_limit
limit_of (some n) = n

abbrev pub has_label : Option String → Option String → Bool
has_label none label = false
has_label (some l) none = false
has_label (some l) (some label) = str_eq l label

module _ {V B : Type 0} where
  -- The condition of `WHERE`.
  abbrev pub matches : ListQuery → RawObject V B → Bool
  matches q e =
      is_none e.deleted_at
      && (id_matches q.room_id e.room_id
          && (text_matches q.attribute e.attribute
              && (kind_matches (kinds_of q.kind) e.kind
                  && (is_past q.direction q.last_occurred_at e.occurred_at
                      && (text_matches q.set (some e.set) && text_matches q.label e.label)))))

  abbrev pub is_earlier : RawObject V B → RawObject V B → Bool
  is_earlier e d =
      ltb_ℤ e.occurred_at d.occurred_at
      || (eqb_ℤ e.occurred_at d.occurred_at && ltb_ℤ e.created_at d.created_at)

  -- `ORDER BY occurred_at, created_at`, ascending or descending.
  abbrev pub precedes : Direction → RawObject V B → RawObject V B → Bool
  precedes forward e d = is_earlier e d
  precedes backward e d = is_earlier d e

  -- The rows of `ListQuery::execute`.
  unfoldable pub list_rows : ListQuery → List (RawObject V B) → List (RawObject V B)
  unfolding select order_by take_first
  list_rows q events =
      take_first (limit_of q.limit) (order_by (precedes q.direction) (select (matches q) events))

  -- The loop of `try_from`.
  unfoldable pub from_rows :
      (B → Option V) → List (RawObject V B) → Result DecodeError (List (Object V))
  unfolding from_raw
  from_rows into_json [] = ok []
  from_rows into_json (e ∷ es) =
      from_raw into_json e >>= λ o. from_rows into_json es >>= λ os. ok (o ∷ os)

  -- `ListQuery::execute`.
  unfoldable pub list_events :
      (B → Option V) → ListQuery → List (RawObject V B) → Result DecodeError (List (Object V))
  unfolding list_rows from_rows
  list_events into_json q events = from_rows into_json (list_rows q events)

  -- `DeleteQuery::execute`.
  abbrev pub is_deleted_by : Uuid → String → RawObject V B → Bool
  is_deleted_by room_id kind e =
      is_none e.deleted_at && (e.room_id == room_id && str_eq e.kind kind)

  unfoldable pub delete_events : Uuid → String → List (RawObject V B) → List (RawObject V B)
  unfolding select
  delete_events room_id kind events = select (λ e. not (is_deleted_by room_id kind e)) events

  -- `room_id = … AND set = … AND label = …` of an event that is not deleted.
  abbrev pub is_of : Uuid → String → Option String → RawObject V B → Bool
  is_of room_id set label e =
      is_none e.deleted_at
      && (e.room_id == room_id && (str_eq e.set set && has_label e.label label))

  -- The row of `OriginalEventQuery::execute`, by `ORDER BY occurred_at`.
  unfoldable pub original_event :
      Uuid → String → String → List (RawObject V B) → Option (RawObject V B)
  unfolding select order_by
  original_event room_id set label events = first_row (
      order_by (λ e d. ltb_ℤ e.occurred_at d.occurred_at)
        (select (is_of room_id set (some label)) events))
