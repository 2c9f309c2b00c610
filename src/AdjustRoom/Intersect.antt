-- ===== src/AdjustRoom/Intersect.antt =====
-- `src/app/operations/adjust_room/intersect.rs`: the ranges that two sequences have in common,
-- by one pass over both. Its element type is `i64` wherever it is called.
pub mod Cover
use event.Base.{ℤ, ◌≡◌, arith, true, false, List, [], ◌∷◌, ltb_ℤ, max_ℤ, min_ℤ, if◌then◌else◌}
use event.Ranges.{Range}

-- `if s < e { result.push((s, e)) }`, ahead of what the later rounds push.
push_range : ℤ → ℤ → List Range → List Range
push_range s e rest = if ltb_ℤ s e then (s, e) ∷ rest else rest

-- `a_state` and `b_state` are the heads of the lists, refilled from the iterators when they are
-- `None`; the loop breaks when one of them cannot be refilled.
unfoldable pub intersect : List Range → List Range → List Range
unfolding push_range
intersect [] bs = []
intersect (a ∷ as') [] = []
intersect ((a1, a2) ∷ as') ((b1, b2) ∷ bs) =
    push_range (max_ℤ a1 b1) (min_ℤ a2 b2) (elim (ltb_ℤ a2 b2) [
      | true ↦ intersect as' ((b1, b2) ∷ bs)
      | false ↦ intersect ((a1, a2) ∷ as') bs
    ])

-- The two ways a round can end.
intersect-next_a :
    (a1 a2 b1 b2 : ℤ) (as' bs : List Range)
    → ltb_ℤ a2 b2 ≡ true
    → intersect ((a1, a2) ∷ as') ((b1, b2) ∷ bs)
      ≡ push_range (max_ℤ a1 b1) a2 (intersect as' ((b1, b2) ∷ bs))
unfolding intersect
intersect-next_a a1 a2 b1 b2 as' bs h = ground arith

intersect-next_b :
    (a1 a2 b1 b2 : ℤ) (as' bs : List Range)
    → ltb_ℤ a2 b2 ≡ false
    → intersect ((a1, a2) ∷ as') ((b1, b2) ∷ bs)
      ≡ push_range (max_ℤ a1 b1) b2 (intersect ((a1, a2) ∷ as') bs)
unfolding intersect
intersect-next_b a1 a2 b1 b2 as' bs h = ground arith
