-- ===== src/CommitEdition/CloneEvents.antt =====
-- `clone_events` of `src/app/operations/commit_edition.rs`: the query that copies the events of a
-- room together with the changes of an edition.
pub mod Join
pub mod Rows
pub mod Insert
pub mod Times
pub mod Content
use event.Base.{
  ℕ, suc, ℤ, pos, ◌+ℤ◌, ◌-ℤ◌, Bool, true, false, ◌&&◌, ◌||◌, not, Option, none, some, List, [], ◌∷◌,
  ◌++◌, map, Result, ok, err, ◌>>=◌, String, str_eq, ltb_ℤ, eqb_ℤ, ◌==◌, is_none, min_ℤ,
  if◌then◌else◌,
}
use event.Base.Word.{fits_i64}
use event.RoomTime.{DateTime}
use event.Db.{Uuid, AgentId}
use event.Db.Event.Raw.{RawObject}
use event.Db.Change
use event.Db.Change.{addition, modification, removal, bulk_removal}
use event.Ranges.{Range}
use Join.{Joined, full_join, wanted}
use Rows.{joined_row}
use Insert.{CommitError, NewRow, order_by_created, row_numbers, new_rows}

-- `event.set NOT IN (SELECT event_set FROM removed_sets)`, which a `NULL` makes untrue.
abbrev pub not_in : String → List (Option String) → Bool
not_in set [] = true
not_in set (none ∷ sets) = false
not_in set (some s ∷ sets) = not (str_eq s set) && not_in set sets

abbrev pub is_bulk_removal : Change.ChangeType → Bool
is_bulk_removal bulk_removal = true
is_bulk_removal _ = false

-- `removed_sets`.
removed_sets : {V : Type 0} → Uuid → List (Change.Object V) → List (Option String)
removed_sets edition_id [] = []
removed_sets edition_id (c ∷ cs) =
    let rest = removed_sets edition_id cs in
    if (c.edition_id == edition_id) && is_bulk_removal c.kind then c.event_set ∷ rest else rest

-- The left side of the join.
unfoldable pub kept_events :
    {V B : Type 0} → Uuid → List (Option String) → List (RawObject V B) → List (RawObject V B)
kept_events source_id sets [] = []
kept_events source_id sets (e ∷ es) =
    let rest = kept_events source_id sets es in
    if (e.room_id == source_id) && (is_none e.deleted_at && not_in e.set sets)
    then e ∷ rest
    else rest

-- The right side of the join.
unfoldable pub edition_changes :
    {V : Type 0} → Uuid → List (Change.Object V) → List (Change.Object V)
edition_changes edition_id [] = []
edition_changes edition_id (c ∷ cs) =
    let rest = edition_changes edition_id cs in
    if (c.edition_id == edition_id) && not (is_bulk_removal c.kind) then c ∷ rest else rest

-- The rows of the join that are copied; `events` and `changes` are the tables.
unfoldable pub join_rows :
    {V B : Type 0} → Uuid → Uuid → List (RawObject V B) → List (Change.Object V) → List (Joined V B)
unfolding removed_sets kept_events edition_changes full_join wanted
join_rows source_id edition_id events changes = wanted (
    full_join (kept_events source_id (removed_sets edition_id changes) events)
      (edition_changes edition_id changes))

-- The rows that `clone_events` inserts.
unfoldable pub clone_events :
    {V B : Type 0}
    → DateTime
    → Uuid
    → Uuid
    → Uuid
    → List (RawObject V B)
    → List (Change.Object V)
    → List Range
    → ℤ
    → Result CommitError (List (NewRow V B))
unfolding join_rows joined_row order_by_created row_numbers new_rows
clone_events now source_id destination_id edition_id events changes gaps offset =
    new_rows destination_id offset (
      row_numbers [] (
        order_by_created
          (map (joined_row now gaps) (join_rows source_id edition_id events changes))))
