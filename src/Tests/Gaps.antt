-- ===== src/Tests/Gaps.antt =====
-- Examples of segments and gaps.
use event.Base.{
  ◌+ℤ◌, ◌≤ℤ◌, ◌-◌, ℤ, pos, ◌≡◌, refl, Bool, true, false, ◌&&◌, ◌||◌, not, ltb_ℤ, ◌-ℤ◌, ◌<ℤ◌, List,
  [], ◌∷◌, ok, max_ℤ, arith,
}
use event.Ranges.{Range, covers, last_stop}
use event.AdjustRoom.Intersect.{intersect}
use event.AdjustRoom.Intersect.Cover.{covers-intersect}
use event.AdjustRoom.Invert.{invert_segments}
use event.AdjustRoom.Invert.Cover.{covers-invert_segments}
use event.AdjustRoom.Invert.RoundTrip.{invert_segments_twice}
use event.AdjustRoom.CloneEvents.{shift}
use event.AdjustRoom.CloneEvents.Shift.{kept, shift-kept}

abbrev rs : List Range
rs = (pos 1, pos 4) ∷ (pos 6, pos 9) ∷ []

abbrev qs : List Range
qs = (pos 3, pos 7) ∷ []

intersect_test : intersect rs qs ≡ (pos 3, pos 4) ∷ (pos 6, pos 7) ∷ []
unfolding intersect
intersect_test = refl

invert_segments_test :
    invert_segments rs (pos 20) 5 ≡ (pos 0, pos 1) ∷ (pos 4, pos 6) ∷ (pos 9, pos 20) ∷ []
unfolding invert_segments event.Base.Word.to_u64 event.Base.Word.wrap_i64 ◌-ℤ◌
invert_segments_test = refl

shift_test : shift rs (pos 8) ≡ ok (pos 3)
unfolding shift ◌+ℤ◌ ◌-ℤ◌
shift_test = refl

covers-intersect_example :
    covers (pos 3) (intersect rs qs) ≡ (covers (pos 3) rs && covers (pos 3) qs)
covers-intersect_example =
    covers-intersect (pos 3) (pos 0) (pos 2) rs qs (ground arith) (ground arith)

covers-invert_segments_example : covers (pos 5) (invert_segments rs (pos 20) 5) ≡ (
    not (covers (pos 5) rs)
    && (ltb_ℤ (pos 5) (last_stop (pos 4) ((pos 6, pos 9) ∷ []))
        || ltb_ℤ (pos 5) (pos 20 -ℤ last_stop (pos 4) ((pos 6, pos 9) ∷ []))))
covers-invert_segments_example =
    covers-invert_segments (pos 5) (pos 1) (pos 4) (pos 20) 5 ((pos 6, pos 9) ∷ []) (ground arith)
      (ground arith) (ground arith) (ground arith) (ground arith) (ground arith)

invert_segments_twice_example : invert_segments (invert_segments rs (pos 20) 0) (pos 20) 0 ≡ rs
invert_segments_twice_example =
    invert_segments_twice (pos 20) rs (ground arith) (ground arith) (ground arith) (ground arith)

shift-kept_example : shift rs (pos 8) ≡ ok (pos (kept rs 8))
shift-kept_example = shift-kept rs 8 (ground arith)
