-- ===== src/Tests/Cuts.antt =====
-- Examples of cuts and of the gaps they stand for.
use event.Base.{
  ℕ, ℤ, pos, ◌≡◌, ◌↔◌, refl, Bool, none, some, String, List, [], ◌∷◌, map, ok, err, ◌≤ℤ◌, arith,
}
use event.Db.Event
use event.Db.Change
use event.Db.Change.{modification}
use event.Ranges.{Range, covers, IsOrdered}
use event.AdjustRoom.Cuts.{
  parse_command, cut_text, Command, start, stop, CutError, cut_events_to_gaps,
}
use event.AdjustRoom.Cuts.Meaning.{
  commands_of, cut_at, cut_events_to_gaps-err_iff, cut_events_to_gaps_lem,
}
use event.CommitEdition.CollectGaps.{
  command_and_time, EventOrChangeAtDur, event_at, change_at, GapsError, cut_vec, collect_gaps,
}
use event.CommitEdition.CollectGaps.Steps.{depth_after}
use event.CommitEdition.CollectGaps.Meaning.{cut_at as nested_cut_at}
use event.CommitEdition.CollectGaps.Total.{collect_gaps_lem}
use event.Db.Event.Insert.{InsertQuery}
use event.AdjustRoom.Breaks.{cut_command, insert_queries}
use event.AdjustRoom.Breaks.Meaning.{CommandsOf, InsertsCuts, insert_queries-InsertsCuts}
use event.Tests.Values.{flag, Value, text, object1, tree_json}

abbrev cut : ℕ → String → ℤ → Event.Object Value
cut n command t = record {
  id = n;
  room_id = 1;
  kind = "stream";
  set = "stream";
  label = none;
  attribute = none;
  content = object1 "cut" (text command);
  occurred_at = t;
  created_by = "web.agent";
  created_at = pos n;
  deleted_at = none;
  original_occurred_at = t;
  original_created_by = "web.agent";
  removed = Bool.false;
}

abbrev late_stop : Change.Object Value
late_stop = record {
  id = 9;
  edition_id = 3;
  kind = modification;
  event_id = some 7;
  event_kind = some "stream";
  event_set = none;
  event_label = none;
  event_data = some (object1 "cut" (text "stop"));
  event_occurred_at = some (pos 30);
  event_created_by = none;
  created_at = pos 50;
}

abbrev cuts : List (Event.Object Value)
cuts = cut 1 "stop" (pos 10) ∷ cut 2 "start" (pos 20) ∷ cut 3 "stop" (pos 25) ∷ []

abbrev commands : List (Command × ℤ)
commands = (stop, pos 10) ∷ (start, pos 20) ∷ (stop, pos 25) ∷ []

cut_events_to_gaps_test :
    cut_events_to_gaps ⦃j = tree_json⦄ cuts ≡ ok ((pos 0, pos 10) ∷ (pos 20, pos 25) ∷ [])
unfolding cut_events_to_gaps
cut_events_to_gaps_test = refl

cut_events_to_gaps_example :
    (gaps : List Range) × (cut_events_to_gaps ⦃j = tree_json⦄ cuts ≡ ok gaps)
    × IsOrdered (pos 0) gaps
    × ((x : ℤ) → pos 0 ≤ℤ x → covers x gaps ≡ cut_at x start commands)
unfolding commands_of parse_command cut_text
cut_events_to_gaps_example =
    cut_events_to_gaps_lem ⦃j = tree_json⦄ cuts commands refl (ground arith)

abbrev spoiled : List (Event.Object Value)
spoiled = cut 1 "halt" (pos 10) ∷ []

cut_events_to_gaps-err_example :
    ((e : CutError) × (cut_events_to_gaps ⦃j = tree_json⦄ spoiled ≡ err e))
    ↔ (commands_of ⦃j = tree_json⦄ spoiled ≡ none)
cut_events_to_gaps-err_example = cut_events_to_gaps-err_iff ⦃j = tree_json⦄ spoiled

abbrev nested_events : List (Event.Object Value)
nested_events = cut 1 "start" (pos 10) ∷ cut 2 "start" (pos 20) ∷ cut 3 "stop" (pos 25) ∷ []

abbrev sorted_cuts : List (EventOrChangeAtDur Value)
sorted_cuts =
    event_at (cut 1 "start" (pos 10)) (pos 10)
    ∷ event_at (cut 2 "start" (pos 20)) (pos 20)
    ∷ event_at (cut 3 "stop" (pos 25)) (pos 25)
    ∷ change_at late_stop (pos 30)
    ∷ []

abbrev nested_commands : List (Command × ℤ)
nested_commands = (start, pos 10) ∷ (start, pos 20) ∷ (stop, pos 25) ∷ (stop, pos 30) ∷ []

collect_gaps_test :
    collect_gaps ⦃j = tree_json⦄ nested_events (late_stop ∷ []) ≡ ok ((pos 10, pos 30) ∷ [])
unfolding collect_gaps
collect_gaps_test = refl

collect_gaps_example :
    (((e : GapsError) × (collect_gaps ⦃j = tree_json⦄ nested_events (late_stop ∷ []) ≡ err e))
      ↔ (depth_after 0 nested_commands ≡ none))
    × ((gaps : List Range)
        → collect_gaps ⦃j = tree_json⦄ nested_events (late_stop ∷ []) ≡ ok gaps
        → (x : ℤ) → covers x gaps ≡ nested_cut_at x 0 nested_commands)
unfolding cut_vec command_and_time parse_command cut_text
collect_gaps_example =
    collect_gaps_lem ⦃j = tree_json⦄ nested_events (late_stop ∷ []) sorted_cuts nested_commands refl
      (
        (some "start", refl, refl),
        ((some "start", refl, refl), ((some "stop", refl, refl), ((some "stop", refl, refl), tt))),
      )
      (omega arith)

abbrev unsorted : List (EventOrChangeAtDur Value)
unsorted = change_at late_stop (pos 30) ∷ event_at (cut 1 "start" (pos 10)) (pos 10) ∷ []

abbrev break : ℕ → Bool → ℤ → Event.Object Value
break n on t = record {
  id = n;
  room_id = 1;
  kind = "break";
  set = "break";
  label = none;
  attribute = none;
  content = object1 "value" (flag on);
  occurred_at = t;
  created_by = "web.agent";
  created_at = pos n;
  deleted_at = none;
  original_occurred_at = t;
  original_created_by = "web.agent";
  removed = Bool.false;
}

-- A video group that is created or deleted.
abbrev group : ℕ → String → ℤ → Event.Object Value
group n word t = record (break n Bool.true t) {
  kind = "video_group";
  content = object1 "video_group" (text word);
}

abbrev breaks : List (Event.Object Value)
breaks =
    break 1 Bool.true (pos 10)
    ∷ break 2 Bool.false (pos 20)
    ∷ group 3 "created" (pos 30)
    ∷ group 4 "changed" (pos 35)
    ∷ group 5 "deleted" (pos 40)
    ∷ []

insert_queries-InsertsCuts_example :
    (qs : List (InsertQuery Value ℕ)) × (cs : List (Command × ℤ)) × (insert_queries ⦃j = tree_json⦄
        (λ v. none)
        1
        breaks
      ≡ some qs)
    × CommandsOf ⦃j = tree_json⦄ breaks cs
    × InsertsCuts ⦃j = tree_json⦄ 1 qs cs
insert_queries-InsertsCuts_example =
    insert_queries-InsertsCuts ⦃j = tree_json⦄ {B = ℕ} (λ v. none) 1 breaks

cut_command_test :
    map (cut_command ⦃j = tree_json⦄) breaks
    ≡ some start ∷ some stop ∷ some start ∷ none ∷ some stop ∷ []
unfolding cut_command
cut_command_test = refl
