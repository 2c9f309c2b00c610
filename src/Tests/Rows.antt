-- ===== src/Tests/Rows.antt =====
-- Examples of copied events.
use event.Base.{ℕ, ℤ, pos, ◌+ℤ◌, ◌-ℤ◌, ◌≡◌, refl, Bool, none, some, String, List, [], ◌∷◌, ok}
use mathlib.Core.List.{Perm}
use event.Db.Event
use event.Ranges.{Range}
use event.AdjustRoom.CloneEvents.{Row, shifted_rows, clone_events}
use event.AdjustRoom.CloneEvents.Numbering.{rows_of, IsNumbered, placed_all, clone_events_placed}

abbrev message : ℕ → ℤ → Event.Object String
message n t = record {
  id = n;
  room_id = 1;
  kind = "message";
  set = "message";
  label = none;
  attribute = none;
  content = "hello";
  occurred_at = t;
  created_by = "web.agent";
  created_at = pos n;
  deleted_at = none;
  original_occurred_at = t;
  original_created_by = "web.agent";
  removed = Bool.false;
}

abbrev copied : ℕ → ℤ → Row String
copied n t = record {
  room_id = 2;
  kind = "message";
  set = "message";
  label = none;
  content = "hello";
  attribute = none;
  removed = Bool.false;
  occurred_at = t;
  created_by = "web.agent";
  created_at = pos n;
}

abbrev messages : List (Event.Object String)
messages = message 6 (pos 15) ∷ message 5 (pos 12) ∷ []

abbrev gap : List Range
gap = (pos 10, pos 20) ∷ []

-- Both events lie in the gap, and the one created first comes first.
clone_events_test :
    clone_events 2 (some 1) messages gap (pos 0) ≡ ok (copied 5 (pos 10) ∷ copied 6 (pos 11) ∷ [])
unfolding clone_events ◌+ℤ◌ ◌-ℤ◌
clone_events_test = refl

clone_events_placed_example :
    (rows : List (Row String)) × (ps : List (Row String × ℕ)) × (shifted_rows 2 gap
        (pos 0)
        1
        messages
      ≡ ok rows)
    × Perm (rows_of ps) rows
    × IsNumbered ps
    × (copied 5 (pos 10) ∷ copied 6 (pos 11) ∷ [] ≡ placed_all ps)
clone_events_placed_example =
    clone_events_placed 2 1 messages gap (pos 0) (copied 5 (pos 10) ∷ copied 6 (pos 11) ∷ [])
      clone_events_test
