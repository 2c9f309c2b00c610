-- ===== src/CommitEdition/CloneEvents/Times.antt =====
-- The times that `clone_events` of `src/app/operations/commit_edition.rs` gives to events.
use event.Base.{
  ℕ, ℤ, pos, ◌+ℤ◌, ok, ◌-ℤ◌, ◌≡◌, refl, ap, Option, none, some, List, [], ◌∷◌, arith, int_laws,
  ◌≤ℤ◌,
}
use event.RoomTime.{DateTime}
use event.Ranges.{Range, IsStrict}
use event.Db.{Uuid}
use event.Db.Event.Raw.{RawObject}
use event.Db.Change
use event.Db.Change.{addition, modification, removal, bulk_removal}
use event.AdjustRoom.CloneEvents.{cut_before}
use event.AdjustRoom.CloneEvents.Shift.{kept, sub-cut_before}
use event.CommitEdition.CloneEvents.Rows.{SubRow, cut_sum, sub_row, minus}
use event.CommitEdition.CloneEvents.Insert.{NewRow, new_row}

-- The condition on the starts makes no difference to gaps from the opening on.
cut_sum-cut_before :
    (lo : ℤ) (gaps : List Range) (t : ℤ)
    → pos 0 ≤ℤ lo
    → IsStrict lo gaps
    → cut_sum gaps t ≡ cut_before gaps t
unfolding cut_sum cut_before
cut_sum-cut_before lo [] t l h = refl
cut_sum-cut_before lo ((s, e) ∷ gaps) t l h =
    let from : pos 0 ≤ℤ s = omega (arith, h.0) in
    let after : pos 0 ≤ℤ e = omega (arith, h.1, from) in
    rw (cut_sum-cut_before e gaps t after h.2) (ground arith)

sub-cut_sum :
    (gaps : List Range) (n : ℕ)
    → IsStrict (pos 0) gaps
    → pos n -ℤ cut_sum gaps (pos n) ≡ pos (kept gaps n)
sub-cut_sum gaps n h =
    rw (cut_sum-cut_before (pos 0) gaps (pos n) (omega arith) h) (sub-cut_before gaps n h)

cut_of : (n : ℕ) (c : ℤ) (k : ℕ) → pos n -ℤ c ≡ pos k → c ≡ pos n -ℤ pos k
cut_of n c k e = rw (← e) (omega int_laws)

-- The change leaves the time of the event as it is.
abbrev pub KeepsTime : {V' : Type 0} → Option (Change.Object V') → Type 0
KeepsTime none = Unit
KeepsTime (some c) = (c.kind ≡ modification) × (c.event_occurred_at ≡ none)

-- The row that is inserted has the selected time, the number of the row and the offset added.
new_row-occurred_at :
    {V' B : Type 0} (destination_id : Uuid) (offset : ℤ) (r : SubRow V' B) (k : ℕ) (t : ℤ)
    (row : NewRow V' B)
    → r.occurred_at ≡ some t
    → new_row destination_id offset (r, k) ≡ ok row
    → row.occurred_at ≡ (t +ℤ pos k) +ℤ offset
unfolding new_row
new_row-occurred_at destination_id offset r k t row o h = ground arith

module _ {V' B : Type 0} where
  sub_row-kept :
      (now : DateTime) (gaps : List Range) (e : RawObject V' B) (c : Option (Change.Object V'))
      (n : ℕ)
      → IsStrict (pos 0) gaps
      → e.occurred_at ≡ pos n
      → KeepsTime c
      → (sub_row now gaps (some e) c).occurred_at ≡ some (pos (kept gaps n))
  unfolding sub_row
  sub_row-kept now gaps e none n h t k = rw t (ap some (sub-cut_sum gaps n h))
  sub_row-kept now gaps e (some c) n h t k = rw (k.0, k.1, t) (ap some (sub-cut_sum gaps n h))

  -- For gaps in order from the opening of the room, none of them empty, the row that is inserted
  -- for an event whose time the edition does not change has the time of as many nanoseconds before
  -- the event as lie in no gap, with the number of the row and the offset added.
  pub new_row-kept :
      (destination_id : Uuid) (offset : ℤ) (number : ℕ) (now : DateTime) (gaps : List Range)
      (e : RawObject V' B) (c : Option (Change.Object V')) (n : ℕ) (row : NewRow V' B)
      → IsStrict (pos 0) gaps
      → e.occurred_at ≡ pos n
      → KeepsTime c
      → new_row destination_id offset (sub_row now gaps (some e) c, number) ≡ ok row
      → row.occurred_at ≡ (pos (kept gaps n) +ℤ pos number) +ℤ offset
  new_row-kept destination_id offset number now gaps e c n row h t k =
      new_row-occurred_at destination_id offset (sub_row now gaps (some e) c) number
        (pos (kept gaps n)) row (sub_row-kept now gaps e c n h t k)

  -- For gaps in order from the opening of the room, none of them empty, an event that a
  -- modification moves to another time is moved back by the gaps before its old time, whatever
  -- gaps lie before the new one.
  pub sub_row-moved :
      (now : DateTime) (gaps : List Range) (e : RawObject V' B) (c : Change.Object V') (n : ℕ)
      (t : ℤ)
      → IsStrict (pos 0) gaps
      → e.occurred_at ≡ pos n
      → c.kind ≡ modification
      → c.event_occurred_at ≡ some t
      → (sub_row now gaps (some e) (some c)).occurred_at ≡ some (t -ℤ (pos n -ℤ pos (kept gaps n)))
  unfolding sub_row
  sub_row-moved now gaps e c n t h o m k =
      rw (m, k, o)
        (ap (λ d. some (t -ℤ d))
          (cut_of n (cut_sum gaps (pos n)) (kept gaps n) (sub-cut_sum gaps n h)))

minus_zero : (o : Option ℤ) → minus o (pos 0) ≡ o
minus_zero none = refl
minus_zero (some t) = ap some (omega int_laws)

-- An addition keeps its time, whatever gaps lie before it.
pub sub_row-added :
    {V' : Type 0} (B : Type 0) (now : DateTime) (gaps : List Range) (c : Change.Object V')
    → c.kind ≡ addition
    → (sub_row {B = B} now gaps none (some c)).occurred_at ≡ c.event_occurred_at
unfolding sub_row
sub_row-added B now gaps c k = rw k (minus_zero c.event_occurred_at)
