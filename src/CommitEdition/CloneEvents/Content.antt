-- ===== src/CommitEdition/CloneEvents/Content.antt =====
-- What `clone_events` of `src/app/operations/commit_edition.rs` makes of the content of events.
use event.Base.{ℕ, ℤ, ◌≡◌, ◌≢◌, refl, List, Option, none, some, Result, ok, err, arith}
use event.RoomTime.{DateTime}
use event.Ranges.{Range}
use event.Db.{Uuid}
use event.Db.Event.Raw.{RawObject, stored_content}
use event.Db.Change
use event.Db.Change.{addition, modification, removal, bulk_removal}
use event.CommitEdition.CloneEvents.Rows.{SubRow, sub_row}
use event.CommitEdition.CloneEvents.Insert.{CommitError, NewRow, new_row}

not_ok-err :
    {A : Type 0} (r : Result CommitError A) → ((a : A) → r ≢ ok a) → (x : CommitError) × (r ≡ err x)
not_ok-err (ok a) h = absurd (h a refl)
not_ok-err (err x) h = (x, refl)

module _ {V' B : Type 0} where
  -- A row that is inserted has the binary content that was selected.
  new_row-binary_data :
      (destination_id : Uuid) (offset : ℤ) (r : SubRow V' B) (n : ℕ) (row : NewRow V' B)
      → new_row destination_id offset (r, n) ≡ ok row
      → row.binary_data ≡ r.binary_data
  unfolding new_row
  new_row-binary_data destination_id offset r n row h = ground arith

  -- A change of an event that is stored in binary form has no effect on its content: what is
  -- read of a copy that is inserted is what was read of the event.
  pub modified_binary_content :
      (into_json : B → Option V') (now : DateTime) (gaps : List Range) (destination_id : Uuid)
      (offset : ℤ) (e : RawObject V' B) (c : Change.Object V') (n : ℕ) (b : B) (row : NewRow V' B)
      → e.binary_data ≡ some b
      → new_row destination_id offset (sub_row now gaps (some e) (some c), n) ≡ ok row
      → stored_content into_json row.content row.binary_data
        ≡ stored_content into_json e.content e.binary_data
  unfolding sub_row stored_content
  modified_binary_content into_json now gaps destination_id offset e c n b row k h =
      let same_binary =
        new_row-binary_data destination_id offset (sub_row now gaps (some e) (some c)) n row h in
      rw (same_binary, k) refl

  -- A row without an author cannot be inserted.
  new_row-no_author :
      (destination_id : Uuid) (offset : ℤ) (r : SubRow V' B) (n : ℕ) (row : NewRow V' B)
      → r.created_by ≡ none
      → new_row destination_id offset (r, n) ≢ ok row
  unfolding new_row
  new_row-no_author destination_id offset r n row k h = ground arith

  -- A modification whose event is not among those copied cannot be inserted.
  pub orphan_change_fails :
      (now : DateTime) (gaps : List Range) (destination_id : Uuid) (offset : ℤ)
      (c : Change.Object V') (n : ℕ)
      → c.kind ≡ modification
      → (x : CommitError) × (new_row {B = B} destination_id offset
            (sub_row now gaps none (some c), n)
          ≡ err x)
  orphan_change_fails now gaps destination_id offset c n k =
      not_ok-err (new_row {B = B} destination_id offset (sub_row now gaps none (some c), n)) (λ row.
        new_row-no_author destination_id offset (sub_row now gaps none (some c)) n row
          (unfold sub_row in rw k refl))
