-- ===== src/Db/Change/Queries.antt =====
-- `ListQuery` of `src/db/change.rs` on the table of changes.
use event.Base.{ℕ, Bool, true, false, ◌&&◌, Option, none, some, List, String, str_eq, ltb_ℤ, ◌==◌}
use event.Db.{Uuid}
use event.Db.Change.{Object}
use event.Db.Rows.{select, order_by, take_first}
use event.RoomTime.{DateTime}

pub record ListQuery : Type 0 where
  pub id : Uuid
  pub last_created_at : Option DateTime
  pub kind : Option String
  pub limit : ℕ

abbrev pub default_list_limit : ℕ
default_list_limit = 25

-- `ListQuery::new`.
abbrev pub changes_of : Uuid → ListQuery
changes_of id = record { id = id; last_created_at = none; kind = none; limit = default_list_limit }

-- `$2::text IS NULL OR event_kind = $2`.
abbrev pub event_kind_matches : Option String → Option String → Bool
event_kind_matches none event_kind = true
event_kind_matches (some k) none = false
event_kind_matches (some k) (some event_kind) = str_eq event_kind k

-- `$3::timestamp IS NULL OR created_at > $3`.
abbrev pub is_after : Option DateTime → DateTime → Bool
is_after none created_at = true
is_after (some last) created_at = ltb_ℤ last created_at

module _ {V : Type 0} where
  abbrev pub change_matches : ListQuery → Object V → Bool
  change_matches q c =
      (c.edition_id == q.id)
      && (event_kind_matches q.kind c.event_kind && is_after q.last_created_at c.created_at)

  -- The rows of `ListQuery::execute`, by `ORDER BY created_at DESC`.
  unfoldable pub list_changes : ListQuery → List (Object V) → List (Object V)
  unfolding select order_by take_first
  list_changes q changes =
      take_first q.limit
        (order_by (λ c d. ltb_ℤ d.created_at c.created_at) (select (change_matches q) changes))
