-- ===== src/Db/Event/Vacuum.antt =====
-- `VacuumQuery` of `src/db/event/mod.rs`: the deletion of old events, of rooms whose history is not
-- preserved.
pub mod Reasons
use event.Base.{
  ℕ, ℤ, pos, negsuc, suc, zero, ◌-ℤ◌, ◌*ℤ◌, ◌/◌, ltb, ltb_ℤ, ◌==◌, Bool, true, false, ◌&&◌, ◌||◌,
  not, Option, none, some, is_none, String, str_eq, List, [], ◌∷◌, ok,
}
use event.Db.{Uuid}
use event.Db.Event.Queries.{text_matches, has_label}
use event.Db.Event.Raw.{RawObject}
use event.Db.Event.SetState.{same_partition, is_later}
use event.Db.Queries.{QueryError, refused}
use event.Db.Room
use event.Db.Room.Queries as RoomQueries
use event.Db.Rows.{select, row_numbers}
use event.Db.Session.{Task, ◌>>=◌, commit, statement}
use event.RoomTime.{DateTime}

pub record VacuumQuery : Type 0 where
  pub max_history_size : ℕ  -- a `usize`, below 2^63, which its cast to `i64` keeps
  pub max_history_lifetime : ℤ  -- `chrono::Duration`, in nanoseconds
  pub max_deleted_lifetime : ℤ

-- `num_seconds`, and `INTERVAL '1 second' * n`.
abbrev pub whole_seconds : ℤ → ℤ
whole_seconds (pos n) = pos (n / 1000000000) *ℤ pos 1000000000
whole_seconds (negsuc n) = (pos 0 -ℤ pos (suc n / 1000000000)) *ℤ pos 1000000000

-- `EXISTS`.
abbrev pub any_row : {A : Type 0} → (A → Bool) → List A → Bool
any_row p [] = false
any_row p (a ∷ as') = p a || any_row p as'

module _ {V B : Type 0} where
  -- `r.preserve_history = 'f'` of the room that is joined.
  unfoldable pub is_vacuumed : List (Room.Object V) → RawObject V B → Bool
  unfolding RoomQueries.find_room
  is_vacuumed rooms e = elim (RoomQueries.find_room e.room_id rooms) [
    | none ↦ false
    | some room ↦ not room.preserve_history
  ]

  -- `sub`: the rows with their `reverse_ordinal`.
  unfoldable pub sub_rows : List (Room.Object V) → List (RawObject V B) → List (ℕ × RawObject V B)
  unfolding row_numbers same_partition is_later select is_vacuumed
  sub_rows rooms events = row_numbers same_partition is_later [] (select (is_vacuumed rooms) events)

  -- Too deep history.
  abbrev pub is_deep : VacuumQuery → ℕ × RawObject V B → Bool
  is_deep q e = ltb q.max_history_size (e.0)

  -- Too old history.
  abbrev pub is_old : VacuumQuery → DateTime → ℕ × RawObject V B → Bool
  is_old q now e =
      ltb 1 (e.0) && ltb_ℤ (e.1).created_at (now -ℤ whole_seconds q.max_history_lifetime)

  -- A label whose latest event has deleted it, too long ago.
  abbrev pub is_marked : VacuumQuery → DateTime → ℕ × RawObject V B → Bool
  is_marked q now e =
      text_matches (some "deleted") (e.1).attribute
      && ((e.0 == 1) && ltb_ℤ (e.1).created_at (now -ℤ whole_seconds q.max_deleted_lifetime))

  -- The join on `room_id`, `set` and `label`, where a `NULL` equals nothing.
  abbrev pub is_joined : RawObject V B → RawObject V B → Bool
  is_joined d e =
      is_none e.deleted_at
      && ((e.room_id == d.room_id) && (str_eq e.set d.set && has_label e.label d.label))

  -- `id IN (…)`.
  unfoldable pub is_doomed :
      VacuumQuery → DateTime → List (Room.Object V) → List (RawObject V B) → RawObject V B → Bool
  unfolding sub_rows select
  is_doomed q now rooms events e =
      any_row (λ d. (is_deep q d || is_old q now d) && ((d.1).id == e.id)) (sub_rows rooms events)
      || any_row
          (λ d. is_marked q now d && any_row (λ c. is_joined (d.1) c && (c.id == e.id)) events)
          (sub_rows rooms events)

  unfoldable pub vacuum_events :
      VacuumQuery → DateTime → List (Room.Object V) → List (RawObject V B) → List (RawObject V B)
  unfolding select is_doomed
  vacuum_events q now rooms events = select (λ e. not (is_doomed q now rooms events e)) events

-- `execute`.
unfoldable pub execute : {E V B : Type 0} → (QueryError → E) → VacuumQuery → Task E V B Unit
unfolding vacuum_events
execute wrap q =
    statement (wrap refused)
      (λ ids now t. ok (tt, record t { events = vacuum_events q now t.rooms t.events }))

-- `call` of `src/app/operations/vacuum.rs`; `unreachable` is the error where no connection is got.
unfoldable pub call : {E V B : Type 0} → E → (QueryError → E) → VacuumQuery → Task E V B Unit
unfolding execute
call unreachable wrap config = statement unreachable (commit tt) >>= λ _. execute wrap config
