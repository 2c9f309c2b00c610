-- ===== src/CommitEdition/CollectGaps.antt =====
-- `collect_gaps` of `src/app/operations/commit_edition.rs`: cut events and cut changes, sorted by
-- time, go through a machine that counts nested cuts.
pub mod Machine
pub mod Steps
pub mod Meaning
pub mod Keys
pub mod Total
pub mod Sorting
use event.Base.{
  ℤ, Bool, true, false, Option, none, some, List, [], ◌∷◌, ◌++◌, map, Result, ok, err, ◌>>=◌,
  String, ltb_ℤ, if◌then◌else◌,
}
use event.Base.Json.{Json}
use event.Db.{Uuid}
use event.Db.Event
use event.Db.Change
use event.Ranges.{Range}
use event.AdjustRoom.Cuts.{Command, parse_command, cut_text}
use Machine.{State, stopped, transition}

-- `bail!` of the last `match`; `panics` stands for an `expect` on a missing field.
pub data GapsError : Type 0 where
  invalid_cut_event : Uuid → GapsError
  invalid_cut_change : Uuid → GapsError
  panics : GapsError

-- `EventOrChangeAtDur`.
pub data EventOrChangeAtDur (V : Type 0) : Type 0 where
  event_at : Event.Object V → ℤ → EventOrChangeAtDur V
  change_at : Change.Object V → ℤ → EventOrChangeAtDur V

-- The key of `sort_by_key`.
unfoldable pub key : {V : Type 0} → EventOrChangeAtDur V → ℤ
key (event_at _ k) = k
key (change_at _ k) = k

-- `sort_by_key` of the standard library, which is stable.
insert_by_key :
    {V : Type 0} → EventOrChangeAtDur V → List (EventOrChangeAtDur V) → List (EventOrChangeAtDur V)
unfolding key
insert_by_key v [] = v ∷ []
insert_by_key v (w ∷ ws) = if ltb_ℤ (key w) (key v) then w ∷ insert_by_key v ws else v ∷ w ∷ ws

unfoldable pub sort_by_key :
    {V : Type 0} → List (EventOrChangeAtDur V) → List (EventOrChangeAtDur V)
unfolding insert_by_key
sort_by_key [] = []
sort_by_key (v ∷ vs) = insert_by_key v (sort_by_key vs)

-- `ch.event_occurred_at().expect(…)`, and what the later turns of the loop push.
push_change :
    {V : Type 0}
    → Change.Object V
    → Option ℤ
    → Result GapsError (List (EventOrChangeAtDur V))
    → Result GapsError (List (EventOrChangeAtDur V))
push_change ch none rest = err panics
push_change ch (some t) rest = rest >>= λ vs. ok (change_at ch t ∷ vs)

-- The loop that pushes the changes.
push_changes :
    {V : Type 0} → List (Change.Object V) → Result GapsError (List (EventOrChangeAtDur V))
unfolding push_change
push_changes [] = ok []
push_changes (ch ∷ chs) = push_change ch ch.event_occurred_at (push_changes chs)

-- `cut_vec`, sorted.
unfoldable pub cut_vec :
    {V : Type 0}
    → List (Event.Object V)
    → List (Change.Object V)
    → Result GapsError (List (EventOrChangeAtDur V))
unfolding push_changes sort_by_key
cut_vec cut_events cut_changes = push_changes cut_changes >>= λ changes.
    ok (sort_by_key (map (λ ev. event_at ev ev.occurred_at) cut_events ++ changes))

abbrev pub or_fail {ℓ} : {A : Type ℓ} → Option A → GapsError → Result GapsError A
or_fail none e = err e
or_fail (some a) e = ok a

module _ {V : Type 0} ⦃j : Json V⦄ where
  -- The first `match` of the loop: the text of the command and the time.
  unfoldable pub command_and_time : EventOrChangeAtDur V → Result GapsError (Option String × ℤ)
  unfolding cut_text
  command_and_time (event_at ev _) = ok (cut_text ev.content, ev.occurred_at)
  command_and_time (change_at ch _) = elim ch.event_data [
    | none ↦ err panics
    | some v ↦ elim ch.event_occurred_at [ none ↦ err panics | some t ↦ ok (cut_text v, t) ]
  ]

  abbrev failure : EventOrChangeAtDur V → GapsError
  failure (event_at ev _) = invalid_cut_event ev.id
  failure (change_at ch _) = invalid_cut_change ch.id

  -- The second `match`.
  pub gaps_turn :
      EventOrChangeAtDur V → State → ℤ → Option Command → Result GapsError (State × List Range)
  unfolding transition
  gaps_turn cut state occurred_at none = err (failure cut)
  gaps_turn cut state occurred_at (some command) =
      or_fail (transition command state occurred_at) (failure cut)

  pub gaps_loop : State → List (EventOrChangeAtDur V) → Result GapsError (List Range)
  unfolding command_and_time gaps_turn parse_command
  gaps_loop state [] = ok []
  gaps_loop state (cut ∷ cuts) = command_and_time cut >>= λ read.
      gaps_turn cut state read.1 (parse_command read.0) >>= λ next.
      gaps_loop next.0 cuts >>= λ rest. ok (next.1 ++ rest)

  unfoldable pub collect_gaps :
      List (Event.Object V) → List (Change.Object V) → Result GapsError (List Range)
  unfolding cut_vec gaps_loop
  collect_gaps cut_events cut_changes =
      cut_vec cut_events cut_changes >>= λ cuts. gaps_loop stopped cuts
