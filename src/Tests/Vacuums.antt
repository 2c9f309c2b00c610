-- ===== src/Tests/Vacuums.antt =====
-- Examples of the deletion of old events.
use event.Base.{
  map, none, some, ◌++◌, List, ℕ, pos, ◌≡◌, ◌⊎◌, inl, inr, refl, sym, ◌∙◌, ap, String, [], ◌∷◌, In,
  arith,
}
use event.Db.Event.Raw.{RawObject}
use event.Db.Event.Vacuum.{VacuumQuery, vacuum_events}
use event.Db.Event.Vacuum.Reasons.{HasIds, IsReason, vacuum_events-Reasons}
use event.Db.Event.Insert.{InsertQuery, query_of}
use event.Db.Event.SetState.{state_rows}
use event.Db.Event.Stored.{stored_row}
use event.Tests.States.{drawn, pinned, other, events, room, a_first, query}

-- At the time of 100 seconds, with one event of a label to be kept.
abbrev vacuum_query : VacuumQuery
vacuum_query = record {
  max_history_size = 1;
  max_history_lifetime = pos 3600000000000;
  max_deleted_lifetime = pos 3600000000000;
}

vacuum_test : vacuum_events vacuum_query (pos 100000000000) (room ∷ []) events ≡ pinned ∷ other ∷ []
unfolding vacuum_events
vacuum_test = refl

same_ids : {e d x y : RawObject String ℕ} → e ≡ x → d ≡ y → e.id ≡ d.id → x.id ≡ y.id
same_ids h k same = sym (ap (λ z. z.id) h) ∙ same ∙ ap (λ z. z.id) k

events-HasIds : HasIds events
events-HasIds e d (inl h) (inl k) same = h ∙ sym k
events-HasIds e d (inl h) (inr (inl k)) same = absurd (omega (arith, same_ids h k same))
events-HasIds e d (inl h) (inr (inr (inl k))) same = absurd (omega (arith, same_ids h k same))
events-HasIds e d (inr (inl h)) (inl k) same = absurd (omega (arith, same_ids h k same))
events-HasIds e d (inr (inl h)) (inr (inl k)) same = h ∙ sym k
events-HasIds e d (inr (inl h)) (inr (inr (inl k))) same = absurd (omega (arith, same_ids h k same))
events-HasIds e d (inr (inr (inl h))) (inl k) same = absurd (omega (arith, same_ids h k same))
events-HasIds e d (inr (inr (inl h))) (inr (inl k)) same = absurd (omega (arith, same_ids h k same))
events-HasIds e d (inr (inr (inl h))) (inr (inr (inl k))) same = h ∙ sym k
events-HasIds e d (inr (inr (inr i))) j same = absurd i
events-HasIds e d (inl h) (inr (inr (inr j))) same = absurd j
events-HasIds e d (inr (inl h)) (inr (inr (inr j))) same = absurd j
events-HasIds e d (inr (inr (inl h))) (inr (inr (inr j))) same = absurd j

-- The drawing is older than the pinned one, of which alone the history keeps one event.
vacuum_events-Reasons_example :
    In drawn (vacuum_events vacuum_query (pos 100000000000) (room ∷ []) events)
    ⊎ IsReason vacuum_query (pos 100000000000) (room ∷ []) events drawn
vacuum_events-Reasons_example =
    vacuum_events-Reasons vacuum_query (pos 100000000000) (room ∷ []) events drawn events-HasIds
      (inl refl)

-- The drawing is changed after its first event was deleted.
abbrev changed : InsertQuery String ℕ
changed = record (query_of 1 "shape" (some "curve", none) (pos 11) "teacher") {
  set = "page";
  label = some "a";
}

abbrev kept : List (RawObject String ℕ)
kept = pinned ∷ other ∷ []

-- The state has the label twice, with the original times 9 and 5.
changed_test :
    map
      (λ e. e.original_occurred_at)
      (state_rows a_first query (kept ++ stored_row 40 (pos 60) kept changed ∷ []))
    ≡ pos 9 ∷ pos 7 ∷ pos 5 ∷ []
unfolding state_rows stored_row
changed_test = refl
