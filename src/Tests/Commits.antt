-- ===== src/Tests/Commits.antt =====
-- Examples of the rows that the commit of an edition copies.
use event.Base.{
  ℕ, ℤ, pos, ◌+ℤ◌, ◌-ℤ◌, ◌≡◌, refl, Bool, none, some, Option, String, List, [], ◌∷◌, ok, err, arith,
}
use event.Db.Event.Raw.{RawObject, stored_content}
use event.Db.Change
use event.Db.Change.{ChangeType, addition, modification, removal}
use event.Ranges.{Range}
use event.AdjustRoom.CloneEvents.Shift.{kept}
use event.CommitEdition.CloneEvents.{clone_events}
use event.CommitEdition.CloneEvents.Join.{full_join, wanted}
use event.CommitEdition.CloneEvents.Join.Parts.{
  events_alone, changes_alone, pairs, untouched, added, changed, full_join-parts,
}
use event.CommitEdition.CloneEvents.Rows.{sub_row}
use event.CommitEdition.CloneEvents.Insert.{CommitError, NewRow, new_row}
use event.CommitEdition.CloneEvents.Times.{new_row-kept, sub_row-moved}
use event.CommitEdition.CloneEvents.Content.{modified_binary_content, orphan_change_fails}

abbrev drawing : ℕ → ℤ → Option String → Option ℕ → RawObject String ℕ
drawing n t text binary = record {
  id = n;
  room_id = 1;
  kind = "draw";
  set = "draw";
  label = none;
  attribute = some "pinned";
  content = text;
  binary_data = binary;
  occurred_at = t;
  created_by = "web.agent";
  created_at = pos n;
  deleted_at = none;
  original_occurred_at = t;
  original_created_by = "web.agent";
  removed = Bool.false;
}

abbrev change : ChangeType → Option ℕ → Option ℤ → Change.Object String
change kind event_id t = record {
  id = 40;
  edition_id = 3;
  kind = kind;
  event_id = event_id;
  event_kind = some "draw";
  event_set = none;
  event_label = none;
  event_data = some "new";
  event_occurred_at = t;
  event_created_by = some "web.editor";
  created_at = pos 50;
}

abbrev events : List (RawObject String ℕ)
events = drawing 5 (pos 30) (some "a") none ∷ drawing 6 (pos 35) none (some 7) ∷ []

abbrev changes : List (Change.Object String)
changes =
    change removal (some 5) none
    ∷ change modification (some 6) none
    ∷ change addition none (some (pos 30))
    ∷ []

abbrev gap : List Range
gap = (pos 10, pos 20) ∷ []

abbrev copy : String → Option String → Option ℕ → ℤ → ℤ → NewRow String ℕ
copy by text binary t created = record {
  room_id = 2;
  kind = "draw";
  set = "draw";
  label = none;
  content = text;
  binary_data = binary;
  occurred_at = t;
  created_by = by;
  created_at = created;
}

-- The event that a removal names is left out, the modified one is shifted by the gap, and the
-- addition is not.
clone_events_test :
    clone_events (pos 90) 1 2 3 events changes gap (pos 0)
    ≡ ok (
        copy "web.agent" (some "new") (some 7) (pos 25) (pos 6)
        ∷ copy "web.editor" (some "new") none (pos 30) (pos 90)
        ∷ [])
unfolding clone_events ◌+ℤ◌ ◌-ℤ◌
clone_events_test = refl

full_join-parts_example :
    (events_alone (wanted (full_join events changes)) ≡ untouched events changes)
    × (changes_alone (wanted (full_join events changes)) ≡ added events changes)
    × (pairs (wanted (full_join events changes)) ≡ changed events changes)
full_join-parts_example = full_join-parts events changes

-- The third of the rows of its time.
abbrev kept_row : NewRow String ℕ
kept_row = copy "web.agent" (some "new") (some 7) (pos 29) (pos 6)

new_row-kept_example : kept_row.occurred_at ≡ (pos (kept gap 35) +ℤ pos 2) +ℤ pos 2
unfolding sub_row new_row ◌+ℤ◌ ◌-ℤ◌
new_row-kept_example =
    new_row-kept 2 (pos 2) 2 (pos 90) gap (drawing 6 (pos 35) none (some 7))
      (some (change modification (some 6) none)) 35 kept_row (ground arith) refl (refl, refl) refl

sub_row-moved_example :
    (sub_row
      (pos 90)
      gap
      (some (drawing 6 (pos 35) none (some 7)))
      (some (change modification (some 6) (some (pos 5))))).occurred_at
    ≡ some (pos 5 -ℤ (pos 35 -ℤ pos (kept gap 35)))
sub_row-moved_example =
    sub_row-moved (pos 90) gap (drawing 6 (pos 35) none (some 7))
      (change modification (some 6) (some (pos 5))) 35 (pos 5) (ground arith) refl refl refl

modified_row_test :
    new_row 2 (pos 0) (
      sub_row
          (pos 90)
          gap
          (some (drawing 6 (pos 35) none (some 7)))
          (some (change modification (some 6) none)),
      0,
    )
    ≡ ok (copy "web.agent" (some "new") (some 7) (pos 25) (pos 6))
unfolding new_row sub_row ◌+ℤ◌ ◌-ℤ◌
modified_row_test = refl

modified_binary_content_example :
    stored_content {V = String} {B = ℕ} (λ b. some "old") (some "new") (some 7)
    ≡ stored_content {V = String} {B = ℕ} (λ b. some "old") none (some 7)
modified_binary_content_example =
    modified_binary_content (λ b. some "old") (pos 90) gap 2 (pos 0)
      (drawing 6 (pos 35) none (some 7)) (change modification (some 6) none) 0 7
      (copy "web.agent" (some "new") (some 7) (pos 25) (pos 6)) refl modified_row_test

orphan_change_fails_example :
    (x : CommitError) × (new_row {B = ℕ} 2
        (pos 0)
        (sub_row (pos 90) gap none (some (change modification (some 8) none)), 0)
      ≡ err x)
orphan_change_fails_example =
    orphan_change_fails {B = ℕ} (pos 90) gap 2 (pos 0) (change modification (some 8) none) 0 refl
