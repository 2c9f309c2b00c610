-- ===== src/Db/Event/Stored.antt =====
-- The insertion of an event: `InsertQuery::execute` of `src/db/event/mod.rs` and the trigger
-- `on_event_insert` of `migrations/20230302093017_fix_on_event_insert_1.sql`, whose switch for the
-- conversion of paths is off and whose lock is left out.
pub mod Earliest
pub mod Originals
pub mod Elsewhere
use event.Base.{
  ℕ, suc, ℤ, pos, ◌+ℤ◌, ltb_ℤ, max_ℤ, Bool, true, false, Option, none, some, String, List, [], ◌∷◌,
  ◌++◌, Result, ok, err,
}
use event.Db.{Uuid, AgentId}
use event.RoomTime.{DateTime}
use event.Db.Event.Raw.{RawObject}
use event.Db.Event.Insert.{InsertQuery}
use event.Db.Event.Queries.{is_of}
use event.Db.Rows.{select, order_by, first_row}

module _ {V B : Type 0} where
  -- `original`: the event of the label that was created first, which has no row where the label is
  -- `NULL`.
  unfoldable pub earliest :
      Uuid → String → Option String → List (RawObject V B) → Option (RawObject V B)
  unfolding select order_by
  earliest room_id set label events =
      first_row (
        order_by (λ e d. ltb_ℤ e.created_at d.created_at) (select (is_of room_id set label) events))

  -- `COALESCE(original.…, NEW.…)`.
  abbrev pub or_else : {A : Type 0} → Option (RawObject V B) → (RawObject V B → A) → A → A
  or_else none f a = a
  or_else (some o) f a = f o

  -- `greatest(now(), original.created_at + '1 microsecond')`, which passes over a `NULL`.
  abbrev pub created_after : DateTime → Option (RawObject V B) → DateTime
  created_after now none = now
  created_after now (some o) = max_ℤ now (o.created_at +ℤ pos 1000)

  -- The row as the trigger leaves it.
  unfoldable pub on_event_insert :
      Uuid → DateTime → Option (RawObject V B) → InsertQuery V B → RawObject V B
  on_event_insert id now original q = record {
    id = id;
    room_id = q.room_id;
    kind = q.kind;
    set = q.set;
    label = q.label;
    attribute = q.attribute;
    content = q.content;
    binary_data = q.binary_data;
    occurred_at = q.occurred_at;
    created_by = q.created_by;
    created_at = elim q.created_at [ none ↦ created_after now original | some t ↦ t ];
    deleted_at = none;
    original_occurred_at = or_else original (λ o. o.occurred_at) q.occurred_at;
    original_created_by = or_else original (λ o. o.created_by) q.created_by;
    removed = q.removed;
  }

  unfoldable pub stored_row :
      Uuid → DateTime → List (RawObject V B) → InsertQuery V B → RawObject V B
  unfolding earliest on_event_insert
  stored_row id now events q = on_event_insert id now (earliest q.room_id q.set q.label events) q

  -- The constraint `data_or_binary_data_not_null`.
  abbrev pub has_content : Option V → Option B → Bool
  has_content none none = false
  has_content none (some b) = true
  has_content (some v) b = true

  -- Rows that one statement inserts: the trigger sees those that came before.
  unfoldable pub store_rows :
      (ℕ → Uuid)
      → ℕ
      → DateTime
      → List (RawObject V B)
      → List (InsertQuery V B)
      → List (RawObject V B)
  unfolding stored_row
  store_rows ids n now events [] = events
  store_rows ids n now events (q ∷ qs) =
      store_rows ids (suc n) now (events ++ stored_row (ids n) now events q ∷ []) qs
