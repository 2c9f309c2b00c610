-- ===== src/AdjustRoom/Cuts/Meaning.antt =====
-- The gaps that the cut events of a room stand for (`cut_events_to_gaps` of
-- `src/app/operations/adjust_room.rs`).
use event.Base.{
  ℤ, pos, ◌≡◌, refl, Bool, true, false, Option, none, some, List, [], ◌∷◌, ◌++◌, Result, ok, err,
  ◌>>=◌, Option-cases, inl, inr, ◌↔◌, ◌≤ℤ◌, ltb_ℤ, if◌then◌else◌, arith,
}
use event.Base.Json.{Json}
use event.Db.Event.{Object}
use event.Ranges.{Range, covers, IsOrdered}
use event.Ranges.Cover.{IsOrdered-weaken, covers_before}
use event.AdjustRoom.Cuts.{
  State, started, stopped, CutError, Command, start, stop, parse_command, transition, cut_text,
  cut_turn, cut_loop, cut_events_to_gaps,
}

-- The machine on commands with their times.
abbrev pub gaps_of : State → List (Command × ℤ) → List Range
gaps_of state [] = []
gaps_of state ((c, t) ∷ cs) = (transition c state t).1 ++ gaps_of (transition c state t).0 cs

-- The commands come in order of time, from the moment on.
abbrev pub InOrder : ℤ → List (Command × ℤ) → Type 0
InOrder lo [] = Unit
InOrder lo ((c, t) ∷ cs) = (lo ≤ℤ t) × InOrder t cs

abbrev bound : State → ℤ → ℤ
bound (started s) now = s
bound stopped now = now

abbrev StartedBy : State → ℤ → Type 0
StartedBy (started s) now = s ≤ℤ now
StartedBy stopped now = Unit

gaps_of-IsOrdered :
    (state : State) (now : ℤ) (cs : List (Command × ℤ))
    → StartedBy state now
    → InOrder now cs
    → IsOrdered (bound state now) (gaps_of state cs)
unfolding transition
gaps_of-IsOrdered state now [] b h = tt
gaps_of-IsOrdered (started s) now ((start, t) ∷ cs) b h =
    IsOrdered-weaken s t (gaps_of (started t) cs) (ground arith)
      (gaps_of-IsOrdered (started t) t cs (ground arith) h.1)
gaps_of-IsOrdered stopped now ((start, t) ∷ cs) b h =
    IsOrdered-weaken now t (gaps_of (started t) cs) (ground arith)
      (gaps_of-IsOrdered (started t) t cs (ground arith) h.1)
gaps_of-IsOrdered (started s) now ((stop, t) ∷ cs) b h =
    ground (arith, gaps_of-IsOrdered stopped t cs tt h.1)
gaps_of-IsOrdered stopped now ((stop, t) ∷ cs) b h =
    IsOrdered-weaken now t (gaps_of stopped cs) h.0 (gaps_of-IsOrdered stopped t cs tt h.1)

abbrev pub from_start : Command → Command → Bool
from_start start stop = true
from_start _ _ = false

-- A moment is cut out if the last command up to it is a start, or there is none, and the next
-- command after it is a stop.
abbrev pub cut_at : ℤ → Command → List (Command × ℤ) → Bool
cut_at x previous [] = false
cut_at x previous ((c, t) ∷ cs) = if ltb_ℤ x t then from_start previous c else cut_at x c cs

abbrev last_command : State → Command
last_command (started s) = start
last_command stopped = stop

covers-gaps_of :
    (x : ℤ) (state : State) (now : ℤ) (cs : List (Command × ℤ))
    → StartedBy state now
    → InOrder now cs
    → now ≤ℤ x
    → covers x (gaps_of state cs) ≡ cut_at x (last_command state) cs
unfolding transition
covers-gaps_of x state now [] b h l = refl
covers-gaps_of x (started s) now ((start, t) ∷ cs) b h l = ground (
  arith,
  covers-gaps_of x (started t) t cs (ground arith) h.1,
  covers_before x t (gaps_of (started t) cs)
      (gaps_of-IsOrdered (started t) t cs (ground arith) h.1),
)
covers-gaps_of x stopped now ((start, t) ∷ cs) b h l = ground (
  arith,
  covers-gaps_of x (started t) t cs (ground arith) h.1,
  covers_before x t (gaps_of (started t) cs)
      (gaps_of-IsOrdered (started t) t cs (ground arith) h.1),
)
covers-gaps_of x (started s) now ((stop, t) ∷ cs) b h l = ground (
  arith,
  covers-gaps_of x stopped t cs tt h.1,
  covers_before x t (gaps_of stopped cs) (gaps_of-IsOrdered stopped t cs tt h.1),
)
covers-gaps_of x stopped now ((stop, t) ∷ cs) b h l = ground (
  arith,
  covers-gaps_of x stopped t cs tt h.1,
  covers_before x t (gaps_of stopped cs) (gaps_of-IsOrdered stopped t cs tt h.1),
)

-- What a run of the machine gives, by the commands that it was given.
abbrev pub Means : State → Option (List (Command × ℤ)) → Result CutError (List Range) → Type 0
Means state none r = (e : CutError) × (r ≡ err e)
Means state (some cs) r = r ≡ ok (gaps_of state cs)

abbrev with_command : Option Command → ℤ → Option (List (Command × ℤ)) → Option (List (Command × ℤ))
with_command none t cs = none
with_command (some c) t none = none
with_command (some c) t (some cs) = some ((c, t) ∷ cs)

Means-step :
    (state : State) (c : Command) (t : ℤ) (m : Option (List (Command × ℤ)))
    (r : Result CutError (List Range))
    → Means (transition c state t).0 m r
    → Means state (with_command (some c) t m) (r >>= λ rest. ok ((transition c state t).1 ++ rest))
Means-step state c t none r h = (h.0, rw h.1)
Means-step state c t (some cs) r h = rw h

module _ {V : Type 0} ⦃j : Json V⦄ where
  -- The commands that the events carry, if each carries one.
  unfoldable pub commands_of : List (Object V) → Option (List (Command × ℤ))
  commands_of [] = some []
  commands_of (event ∷ events) =
      with_command (parse_command (cut_text event.content)) event.occurred_at (commands_of events)

  cut_loop-Means :
      (state : State) (events : List (Object V))
      → Means state (commands_of events) (cut_loop state events)
  unfolding commands_of cut_loop
  cut_loop-Means state [] = refl
  cut_loop-Means state (event ∷ events) =
      elim (parse_command (cut_text event.content))
        as (λ p. Means state (with_command p event.occurred_at (commands_of events)) (
          cut_turn event state p >>= λ next.
          cut_loop next.0 events >>= λ rest. ok (next.1 ++ rest))) [
            | none ↦ (_, refl)
            | some c ↦
                (Means-step state c event.occurred_at (commands_of events) _
                  (cut_loop-Means (transition c state event.occurred_at).0 events))
          ]

  -- The run fails exactly when some event carries no command.
  pub cut_events_to_gaps-err_iff :
      (events : List (Object V))
      → ((e : CutError) × (cut_events_to_gaps events ≡ err e)) ↔ (commands_of events ≡ none)
  unfolding cut_events_to_gaps
  cut_events_to_gaps-err_iff events = elim (Option-cases (commands_of events)) [
    | inl e ↦ ((λ _. e), λ _. rw e at (cut_loop-Means (started (pos 0)) events))
    | inr (cs, e) ↦
        let runs : cut_loop (started (pos 0)) events ≡ ok (gaps_of (started (pos 0)) cs) =
          rw e at (cut_loop-Means (started (pos 0)) events) in
        ((λ f. cc (f.1, runs)), λ none_of. cc (none_of, e))
  ]

  -- When every event carries a command and they come in order of time, the run gives gaps in
  -- order, and a moment of the room lies in a gap exactly when it is cut out.
  pub cut_events_to_gaps_lem :
      (events : List (Object V)) (cs : List (Command × ℤ))
      → commands_of events ≡ some cs
      → InOrder (pos 0) cs
      → (gaps : List Range) × (cut_events_to_gaps events ≡ ok gaps)
        × IsOrdered (pos 0) gaps
        × ((x : ℤ) → pos 0 ≤ℤ x → covers x gaps ≡ cut_at x start cs)
  unfolding cut_events_to_gaps
  cut_events_to_gaps_lem events cs e h = (
    gaps_of (started (pos 0)) cs,
    rw e at (cut_loop-Means (started (pos 0)) events),
    gaps_of-IsOrdered (started (pos 0)) (pos 0) cs (omega arith) h,
    λ x l. covers-gaps_of x (started (pos 0)) (pos 0) cs (omega arith) h l,
  )
