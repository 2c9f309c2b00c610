-- ===== src/AdjustRoom/Intersect/Cover.antt =====
-- The intersection covers what both sequences cover (`adjust_room/intersect.rs`).
use event.Base.{
  ℤ, ◌≡◌, refl, ◌&&◌, List, [], ◌∷◌, ◌≤ℤ◌, arith, Bool, true, false, ◌||◌, ltb_ℤ, Bool-cases, inl,
  inr, max_ℤ,
}
use event.Ranges.{Range, in_range, covers, IsOrdered, IsStrict}
use event.Ranges.Cover.{covers_before, IsStrict-weaken}
use event.AdjustRoom.Intersect.{intersect, push_range, intersect-next_a, intersect-next_b}

covers-push_range :
    (x s e : ℤ) (rs : List Range)
    → covers x (push_range s e rs) ≡ (in_range x (s, e) || covers x rs)
unfolding push_range
covers-push_range x s e rs = ground arith

-- One round, where the head of `a` is used up.
covers_next_a :
    (x a1 a2 b1 b2 : ℤ) (c d : Bool)
    → ltb_ℤ a2 b2 ≡ true
    → (ltb_ℤ x b2 ≡ true → d ≡ false)
    → (in_range x (max_ℤ a1 b1, a2) || (c && (in_range x (b1, b2) || d)))
      ≡ ((in_range x (a1, a2) || c) && (in_range x (b1, b2) || d))
covers_next_a x a1 a2 b1 b2 c d h before = ground arith

-- One round, where the head of `b` is used up.
covers_next_b :
    (x a1 a2 b1 b2 : ℤ) (c d : Bool)
    → ltb_ℤ a2 b2 ≡ false
    → (ltb_ℤ x a2 ≡ true → c ≡ false)
    → (in_range x (max_ℤ a1 b1, b2) || ((in_range x (a1, a2) || c) && d))
      ≡ ((in_range x (a1, a2) || c) && (in_range x (b1, b2) || d))
covers_next_b x a1 a2 b1 b2 c d h before = ground arith

-- For two sequences in order, a moment lies in the intersection exactly when it lies in both.
pub covers-intersect :
    (x lo lo' : ℤ) (as' bs : List Range)
    → IsOrdered lo as'
    → IsOrdered lo' bs
    → covers x (intersect as' bs) ≡ (covers x as' && covers x bs)
covers-intersect x lo lo' [] bs h k = unfold intersect in refl
covers-intersect x lo lo' (a ∷ as') [] h k = unfold intersect in ground arith
covers-intersect x lo lo' ((a1, a2) ∷ as') ((b1, b2) ∷ bs) h k = elim (Bool-cases (ltb_ℤ a2 b2)) [
  | inl c ↦ rw (intersect-next_a a1 a2 b1 b2 as' bs c) (
      rw (covers-push_range x (max_ℤ a1 b1) a2 (intersect as' ((b1, b2) ∷ bs))) (
        rw (covers-intersect x a2 lo' as' ((b1, b2) ∷ bs) h.2 k) (
          covers_next_a x a1 a2 b1 b2 (covers x as') (covers x bs) c
            (λ l. covers_before x b2 bs k.2 (ground arith)))))
  | inr c ↦ rw (intersect-next_b a1 a2 b1 b2 as' bs c) (
      rw (covers-push_range x (max_ℤ a1 b1) b2 (intersect ((a1, a2) ∷ as') bs)) (
        rw (covers-intersect x lo b2 ((a1, a2) ∷ as') bs h k.2) (
          covers_next_b x a1 a2 b1 b2 (covers x as') (covers x bs) c
            (λ l. covers_before x a2 as' h.2 (ground arith)))))
]

push_range-IsStrict :
    (lo s e : ℤ) (rs : List Range)
    → lo ≤ℤ s
    → lo ≤ℤ e
    → IsStrict e rs
    → IsStrict lo (push_range s e rs)
unfolding push_range
push_range-IsStrict lo s e rs l l' h = ground (arith, IsStrict-weaken lo e rs l' h)

push_range-IsStrict_rest :
    (lo s e : ℤ) (rs : List Range)
    → lo ≤ℤ s
    → IsStrict e rs
    → IsStrict lo rs
    → IsStrict lo (push_range s e rs)
unfolding push_range
push_range-IsStrict_rest lo s e rs l h k = ground arith

intersect-IsStrict_both :
    (lo lo' : ℤ) (as' bs : List Range)
    → IsOrdered lo as'
    → IsOrdered lo' bs
    → IsStrict lo (intersect as' bs) × IsStrict lo' (intersect as' bs)
intersect-IsStrict_both lo lo' [] bs h k = unfold intersect in (tt, tt)
intersect-IsStrict_both lo lo' (a ∷ as') [] h k = unfold intersect in (tt, tt)
intersect-IsStrict_both lo lo' ((a1, a2) ∷ as') ((b1, b2) ∷ bs) h k =
    elim (Bool-cases (ltb_ℤ a2 b2)) [
      | inl c ↦
          let ih = intersect-IsStrict_both a2 lo' as' ((b1, b2) ∷ bs) h.2 k in
          rw (intersect-next_a a1 a2 b1 b2 as' bs c) (
            push_range-IsStrict lo _ a2 _ (ground arith) (ground arith) ih.0,
            push_range-IsStrict_rest lo' _ a2 _ (ground arith) ih.0 ih.1,
          )
      | inr c ↦
          let ih = intersect-IsStrict_both lo b2 ((a1, a2) ∷ as') bs h k.2 in
          rw (intersect-next_b a1 a2 b1 b2 as' bs c) (
            push_range-IsStrict_rest lo _ b2 _ (ground arith) ih.1 ih.0,
            push_range-IsStrict lo' _ b2 _ (ground arith) (ground arith) ih.1,
          )
    ]

-- For two sequences in order the result is in order, begins no earlier than either, and has no
-- empty range.
pub intersect-IsStrict :
    (lo lo' : ℤ) (as' bs : List Range)
    → IsOrdered lo as'
    → IsOrdered lo' bs
    → IsStrict (max_ℤ lo lo') (intersect as' bs)
intersect-IsStrict lo lo' as' bs h k = ground (arith, intersect-IsStrict_both lo lo' as' bs h k)
