-- ===== src/AdjustRoom/Invert/Cover.antt =====
-- What the gaps cover (`invert_segments` of `src/app/operations/adjust_room.rs`).
use event.Base.{
  ℕ, ℤ, pos, ◌≡◌, ◌≤ℤ◌, ◌<ℤ◌, ◌-ℤ◌, ltb_ℤ, leb_ℤ, Bool, false, not, ◌&&◌, ◌||◌, List, [], ◌∷◌,
  arith, true, ◌∙◌, ap, ltb, if◌then◌else◌,
}
use event.Base.Word.{IsI64, wrap_i64, to_u64, to_u64-sub}
use event.Ranges.{Range, in_range, covers, IsOrdered, EndsBy, last_stop}
use event.Ranges.Cover.{covers_before, covers_after, covers-append, le-last_stop, last_stop-le}
use event.AdjustRoom.Invert.{total_nanos, leading_gap, inner_gaps, trailing_gap, invert_segments}

-- One round of the loop.
covers_next_gap :
    (x e s' e' last : ℤ) (c : Bool)
    → e ≤ℤ s'
    → s' ≤ℤ e'
    → e' ≤ℤ last
    → (ltb_ℤ x e' ≡ true → c ≡ false)
    → (in_range x (e, s') || (leb_ℤ e' x && ltb_ℤ x last && not c))
      ≡ (leb_ℤ e x && ltb_ℤ x last && not (in_range x (s', e') || c))
covers_next_gap x e s' e' last c h k l before = ground arith

covers-inner_gaps :
    (x e : ℤ) (rest : List Range)
    → IsOrdered e rest
    → covers x (inner_gaps e rest)
      ≡ (leb_ℤ e x && ltb_ℤ x (last_stop e rest) && not (covers x rest))
unfolding inner_gaps
covers-inner_gaps x e [] h = ground arith
covers-inner_gaps x e ((s', e') ∷ rest) h = rw (covers-inner_gaps x e' rest h.2) (
    covers_next_gap x e s' e' (last_stop e' rest) (covers x rest) h.0 h.1 (le-last_stop e' rest h.2)
      (λ l. covers_before x e' rest h.2 (ground arith)))

-- The test on the `u64` is the test on the exact difference.
pub tail_test :
    (last nanos : ℤ) (min : ℕ)
    → IsI64 last
    → IsI64 nanos
    → last ≤ℤ nanos
    → ltb min (to_u64 (wrap_i64 (nanos -ℤ last))) ≡ ltb_ℤ (pos min) (nanos -ℤ last)
tail_test last nanos min h k l =
    ltb-pos min (to_u64 (wrap_i64 (nanos -ℤ last)))
    ∙ ap (λ (d : ℤ). ltb_ℤ (pos min) d) (to_u64-sub nanos last k h l)
  where
    ltb-pos : (m n : ℕ) → ltb m n ≡ ltb_ℤ (pos m) (pos n)
    ltb-pos m n = ground arith

covers-trailing_gap :
    (x last nanos : ℤ) (min : ℕ)
    → IsI64 last
    → IsI64 nanos
    → last ≤ℤ nanos
    → covers x (trailing_gap last nanos min)
      ≡ (in_range x (last, nanos) && ltb_ℤ (pos min) (nanos -ℤ last))
unfolding trailing_gap
covers-trailing_gap x last nanos min h k l =
    rw (trailing_gap, tail_test last nanos min h k l) (covers_tail x last nanos _)
  where
    covers_tail :
        (x last nanos : ℤ) (long : Bool)
        → covers x (if ltb_ℤ last nanos && long then (last, nanos) ∷ [] else [])
          ≡ (in_range x (last, nanos) && long)
    covers_tail x last nanos long = ground arith

-- The three kinds of gaps together.
covers_all_gaps :
    (x s e last dur : ℤ) (c long : Bool)
    → pos 0 ≤ℤ x
    → x <ℤ dur
    → pos 0 ≤ℤ s
    → s ≤ℤ e
    → e ≤ℤ last
    → (ltb_ℤ x e ≡ true → c ≡ false)
    → (ltb_ℤ x last ≡ false → c ≡ false)
    → (in_range x (pos 0, s)
        || ((leb_ℤ e x && ltb_ℤ x last && not c) || (in_range x (last, dur) && long)))
      ≡ (not (in_range x (s, e) || c) && (ltb_ℤ x last || long))
covers_all_gaps x s e last dur c long p q a b l before after = ground arith

covers-leading_gap : (x s : ℤ) → pos 0 ≤ℤ x → covers x (leading_gap s) ≡ in_range x (pos 0, s)
unfolding leading_gap
covers-leading_gap x s p = ground arith

pub total_nanos_lem : (dur : ℤ) → IsI64 dur → total_nanos dur ≡ dur
unfolding total_nanos
total_nanos_lem dur h = ground arith

-- For segments in order within the room, where the length of the room and the last stop are
-- values of `i64`, a moment of the room lies in a gap exactly when it
-- lies in no segment, but for the time after the last segment, which becomes a gap only if it is
-- longer than the least length of a segment.
pub covers-invert_segments :
    (x s e dur : ℤ) (min : ℕ) (rest : List Range)
    → IsI64 dur
    → IsI64 (last_stop e rest)
    → IsOrdered (pos 0) ((s, e) ∷ rest)
    → EndsBy dur ((s, e) ∷ rest)
    → pos 0 ≤ℤ x
    → x <ℤ dur
    → covers x (invert_segments ((s, e) ∷ rest) dur min) ≡ (
        not (covers x ((s, e) ∷ rest))
        && (ltb_ℤ x (last_stop e rest) || ltb_ℤ (pos min) (dur -ℤ last_stop e rest)))
unfolding invert_segments
covers-invert_segments x s e dur min rest d l h k p q =
    let last : ℤ = last_stop e rest in
    let ends : last ≤ℤ dur = last_stop-le e dur rest k.0 k.1 in
    rw
      (
        total_nanos_lem dur d,
        covers-append x (leading_gap s),
        covers-append x (inner_gaps e rest),
        covers-leading_gap x s p,
        covers-inner_gaps x e rest h.2,
        covers-trailing_gap x last dur min l d ends,
      )
      (covers_all_gaps x s e last dur (covers x rest) _ p q h.0 h.1 (le-last_stop e rest h.2)
        (λ t. covers_before x e rest h.2 (ground arith))
        (λ t. covers_after x e rest h.2 (ground arith)))
