-- ===== src/AdjustRoom/Cuts.antt =====
-- `cut_events_to_gaps` of `src/app/operations/adjust_room.rs`: the machine that turns
-- cut-start and cut-stop events into gaps.
pub mod Meaning
use event.Base.{
  ℤ, pos, Bool, true, false, Option, none, some, List, [], ◌∷◌, ◌++◌, Result, ok, err, ◌>>=◌,
  String, str_eq, if◌then◌else◌,
}
use event.Base.Json.{Json}
use event.Db.{Uuid}
use event.Db.Event.{Object}
use event.Ranges.{Range}

-- `CutEventsToGapsState`.
pub data State : Type 0 where
  started : ℤ → State
  stopped : State

pub data CutError : Type 0 where
  invalid_cut_event : Uuid → Option String → State → CutError

pub data Command : Type 0 where
  start stop : Command

-- `Some("start")` and `Some("stop")`.
unfoldable pub parse_command : Option String → Option Command
parse_command none = none
parse_command (some text) =
    if str_eq text "start" then some start else if str_eq text "stop" then some stop else none

-- The new state, and what is pushed to `gaps`.
unfoldable pub transition : Command → State → ℤ → State × List Range
transition start (started _) occurred_at = (started occurred_at, [])
transition start stopped occurred_at = (started occurred_at, [])
transition stop (started from) occurred_at = (stopped, (from, occurred_at) ∷ [])
transition stop stopped occurred_at = (stopped, [])

module _ {V : Type 0} ⦃j : Json V⦄ where
  -- `event.data().get("cut").and_then(|v| v.as_str())`.
  unfoldable pub cut_text : V → Option String
  cut_text v = elim (j.get v "cut") [ none ↦ none | some c ↦ j.as_str c ]

  -- The `match` on the command.
  pub cut_turn : Object V → State → Option Command → Result CutError (State × List Range)
  unfolding cut_text transition
  cut_turn event state none = err (invalid_cut_event event.id (cut_text event.content) state)
  cut_turn event state (some command) = ok (transition command state event.occurred_at)

  -- One turn of the loop.
  pub cut_step : State → Object V → Result CutError (State × List Range)
  unfolding parse_command cut_turn
  cut_step state event = cut_turn event state (parse_command (cut_text event.content))

  pub cut_loop : State → List (Object V) → Result CutError (List Range)
  unfolding cut_step
  cut_loop state [] = ok []
  cut_loop state (event ∷ events) =
      cut_step state event >>= λ next. cut_loop next.0 events >>= λ rest. ok (next.1 ++ rest)

  unfoldable pub cut_events_to_gaps : List (Object V) → Result CutError (List Range)
  unfolding cut_loop
  cut_events_to_gaps cut_events = cut_loop (started (pos 0)) cut_events
