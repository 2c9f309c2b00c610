-- ===== src/CommitEdition/CollectGaps/Machine.antt =====
-- The machine of `collect_gaps` in `src/app/operations/commit_edition.rs`.
use event.Base.{ℕ, ◌+◌, ◌-◌, ◌%◌, ◌^◌, ℤ, Option, none, some, List, [], ◌∷◌, ◌==◌, if◌then◌else◌}
use event.Ranges.{Range}
use event.AdjustRoom.Cuts.{Command, start, stop}

-- `CutEventsToGapsState`: when the outermost cut began, and how many are nested in it (`u64`).
pub data State : Type 0 where
  started : ℤ → ℕ → State
  stopped : State

-- The new state, and what is pushed to `gaps`; `none` is the arm that fails. The level is not 0
-- where it is decremented.
unfoldable pub transition : Command → State → ℤ → Option (State × List Range)
transition start stopped occurred_at = some (started occurred_at 0, [])
transition start (started from nest_lvl) occurred_at =
    some (started from ((nest_lvl + 1) % 2 ^ 64), [])
transition stop (started from nest_lvl) occurred_at =
    if nest_lvl == 0
    then some (stopped, (from, occurred_at) ∷ [])
    else some (started from (nest_lvl - 1), [])
transition stop stopped occurred_at = none
