-- ===== src/AdjustRoom/Breaks.antt =====
-- The stream events that `call` of `src/app/operations/adjust_room.rs` inserts for the breaks and
-- video groups of a room.
pub mod Meaning
use event.Base.{
  arith, ℤ, ◌≡◌, ◌≢◌, refl, ap, ◌∙◌, ◌⊎◌, Bool, true, false, Bool-cases, Option, none, some,
  Option-cases, inl, inr, List, [], ◌∷◌, String, str_eq, str_eq_iff, if◌then◌else◌,
}
use event.Base.Json.{Json}
use event.Db.{Uuid}
use event.Db.Event.{Object}
use event.Db.Event.Insert.{InsertQuery, new_query, new_query-plain}
use event.AdjustRoom.Cuts.{Command, start, stop, parse_command, cut_text}

-- The `match` on the word of a video group.
abbrev pub group_word : Option String → Option Command
group_word none = none
group_word (some word) =
    if str_eq word "created" then some start else if str_eq word "deleted" then some stop else none

-- Ahead of the later commands.
abbrev pub with_command : Option Command → ℤ → List (Command × ℤ) → List (Command × ℤ)
with_command none t cs = cs
with_command (some c) t cs = (c, t) ∷ cs

module _ {V : Type 0} ⦃j : Json V⦄ where
  -- `json!({"cut": …})`.
  abbrev pub cut_json : Command → V
  cut_json start = j.object1 "cut" (j.text "start")
  cut_json stop = j.object1 "cut" (j.text "stop")

  -- `event.data().get("value").and_then(|v| v.as_bool())` and its `match`.
  abbrev pub break_command : V → Option Command
  break_command v = elim (j.get v "value") [
    | none ↦ none
    | some b ↦ elim (j.as_bool b) [ none ↦ none | some on ↦ some (if on then start else stop) ]
  ]

  -- The same of a video group.
  abbrev pub group_command : V → Option Command
  group_command v = elim (j.get v "video_group") [ none ↦ none | some s ↦ group_word (j.as_str s) ]

  unfoldable pub cut_command : Object V → Option Command
  cut_command event =
      if str_eq event.kind "break" then break_command event.content else group_command event.content

  -- What one turn of the loop puts ahead of the later queries: the `?` of `EventInsertQuery::new`
  -- ends the task.
  unfoldable pub push_query :
      {B : Type 0}
      → (V → Option B)
      → Uuid
      → Object V
      → Option Command
      → Option (List (InsertQuery V B))
      → Option (List (InsertQuery V B))
  push_query from_json room_id event none rest = rest
  push_query from_json room_id event (some c) rest =
      elim (new_query from_json room_id "stream" (cut_json c) event.occurred_at event.created_by) [
        | none ↦ none
        | some q ↦ elim rest [ none ↦ none | some qs ↦ some (q ∷ qs) ]
      ]

  -- The loop over the events of kinds `break` and `video_group`.
  unfoldable pub insert_queries :
      {B : Type 0} → (V → Option B) → Uuid → List (Object V) → Option (List (InsertQuery V B))
  unfolding cut_command push_query
  insert_queries from_json room_id [] = some []
  insert_queries from_json room_id (event ∷ events) =
      push_query from_json room_id event (cut_command event)
        (insert_queries from_json room_id events)
