-- ===== src/AdjustRoom/Invert/RoundTrip.antt =====
-- Inverting twice gives the segments back (`invert_segments` of
-- `src/app/operations/adjust_room.rs`).
use event.Base.{
  ℤ, pos, ◌≡◌, ◌≤ℤ◌, ◌<ℤ◌, -ℤ_parts, ltb_ℤ, List, [], ◌∷◌, ◌++◌, arith, if◌then◌else◌, eq_of_parts,
  ◌∙◌,
}
use event.Base.Word.{IsI64}
use event.Ranges.{Range, IsApart, EndsBy, last_stop}
use event.AdjustRoom.Invert.Cover.{tail_test, total_nanos_lem}
use event.AdjustRoom.Invert.{leading_gap, inner_gaps, trailing_gap, invert_segments}

-- The part of `[lo, hi)` that the ranges leave free.
abbrev pub complement : ℤ → ℤ → List Range → List Range
complement lo hi [] = if ltb_ℤ lo hi then (lo, hi) ∷ [] else []
complement lo hi ((s, e) ∷ rs) =
    if ltb_ℤ lo s then (lo, s) ∷ complement e hi rs else complement e hi rs

-- Once more, the free part of the free part is what was there.
complement-complement :
    (s e hi : ℤ) (rs : List Range)
    → s <ℤ e
    → e ≤ℤ hi
    → IsApart e rs
    → EndsBy hi rs
    → complement s hi (complement e hi rs) ≡ (s, e) ∷ rs
complement-complement s e hi [] l k h b = ground (arith, eq_of_parts e hi)
complement-complement s e hi ((s', e') ∷ rs) l k h b =
    ground (arith, complement-complement s' e' hi rs h.1 b.0 h.2 b.1)

trailing_gap_zero :
    (last hi : ℤ)
    → IsI64 last
    → IsI64 hi
    → last ≤ℤ hi
    → trailing_gap last hi 0 ≡ complement last hi []
unfolding trailing_gap
trailing_gap_zero last hi h k l = rw (tail_test last hi 0 h k l) (ground (arith, -ℤ_parts hi last))

-- The gaps after the first segment are the free part after it.
inner-complement :
    (e hi : ℤ) (rest : List Range)
    → IsI64 hi
    → IsI64 (last_stop e rest)
    → e ≤ℤ hi
    → IsApart e rest
    → EndsBy hi rest
    → inner_gaps e rest ++ trailing_gap (last_stop e rest) hi 0 ≡ complement e hi rest
unfolding inner_gaps
inner-complement e hi [] k h l a b = trailing_gap_zero e hi h k l
inner-complement e hi ((s', e') ∷ rest) k h l a b =
    ground (arith, inner-complement e' hi rest k h b.0 a.2 b.1)

-- The gaps are the part of the room that the segments leave free.
invert-complement :
    (s e hi : ℤ) (rest : List Range)
    → IsI64 hi
    → IsI64 (last_stop e rest)
    → pos 0 ≤ℤ s
    → s <ℤ e
    → IsApart e rest
    → EndsBy hi ((s, e) ∷ rest)
    → invert_segments ((s, e) ∷ rest) hi 0 ≡ complement (pos 0) hi ((s, e) ∷ rest)
unfolding invert_segments leading_gap
invert-complement s e hi rest k h p l a b =
    rw (total_nanos_lem hi k, inner-complement e hi rest k h b.0 a b.1) (ground arith)

-- Every bound is an `i64`.
abbrev pub AllI64 : List Range → Type 0
AllI64 [] = Unit
AllI64 ((s, e) ∷ rs) = IsI64 s × IsI64 e × AllI64 rs

-- A list that is proper input of `invert_segments`: within the room, in order, apart.
abbrev pub IsProper : ℤ → List Range → Type 0
IsProper hi [] = Unit
IsProper hi ((s, e) ∷ rs) = (pos 0 ≤ℤ s) × (s <ℤ e) × IsApart e rs × EndsBy hi ((s, e) ∷ rs)

AllI64-complement :
    (lo hi : ℤ) (rs : List Range) → IsI64 lo → IsI64 hi → AllI64 rs → AllI64 (complement lo hi rs)
AllI64-complement lo hi [] l h a = ground arith
AllI64-complement lo hi ((s, e) ∷ rs) l h a = ground (arith, AllI64-complement e hi rs a.1 h a.2)

last_stop-IsI64 : (e : ℤ) (rs : List Range) → IsI64 e → AllI64 rs → IsI64 (last_stop e rs)
last_stop-IsI64 e [] h a = h
last_stop-IsI64 e ((s', e') ∷ rs) h a = last_stop-IsI64 e' rs a.1 a.2

complement-IsApart :
    (lo e hi : ℤ) (rs : List Range)
    → lo <ℤ e
    → IsApart e rs
    → EndsBy hi rs
    → IsApart lo (complement e hi rs)
complement-IsApart lo e hi [] l h b = ground arith
complement-IsApart lo e hi ((s', e') ∷ rs) l h b =
    ground (arith, complement-IsApart s' e' hi rs h.1 h.2 b.1)

complement-EndsBy :
    (e hi : ℤ) (rs : List Range) → IsApart e rs → EndsBy hi rs → EndsBy hi (complement e hi rs)
complement-EndsBy e hi [] h b = ground arith
complement-EndsBy e hi ((s', e') ∷ rs) h b = ground (arith, complement-EndsBy e' hi rs h.2 b.1)

IsApart-IsProper : (hi : ℤ) (rs : List Range) → IsApart (pos 0) rs → EndsBy hi rs → IsProper hi rs
IsApart-IsProper hi [] h b = tt
IsApart-IsProper hi ((s, e) ∷ rs) h b = ground arith

complement-IsProper :
    (hi : ℤ) (rs : List Range)
    → pos 0 <ℤ hi
    → IsProper hi rs
    → IsProper hi (complement (pos 0) hi rs)
complement-IsProper hi [] p b = ground arith
complement-IsProper hi ((s, e) ∷ rs) p b = ground (
  arith,
  complement-IsApart s e hi rs b.1 b.2 b.3.1,
  complement-EndsBy e hi rs b.2 b.3.1,
  IsApart-IsProper hi (complement e hi rs),
  eq_of_parts s (pos 0),
)

-- With no least length, for segments with `i64` bounds that lie within a room of positive `i64`
-- length, in order and apart, the result is what they leave free of the room.
pub invert_segments-complement :
    (hi : ℤ) (rs : List Range)
    → IsI64 hi
    → pos 0 <ℤ hi
    → AllI64 rs
    → IsProper hi rs
    → invert_segments rs hi 0 ≡ complement (pos 0) hi rs
invert_segments-complement hi [] k p a b =
    unfold invert_segments in rw (total_nanos_lem hi k) (ground arith)
invert_segments-complement hi ((s, e) ∷ rest) k p a b =
    invert-complement s e hi rest k (last_stop-IsI64 e rest a.1 a.2) b.0 b.1 b.2 b.3

complement_twice :
    (hi : ℤ) (rs : List Range)
    → pos 0 <ℤ hi
    → IsProper hi rs
    → complement (pos 0) hi (complement (pos 0) hi rs) ≡ rs
complement_twice hi [] p b = ground arith
complement_twice hi ((s, e) ∷ rest) p b =
    ground (arith, complement-complement s e hi rest b.1 b.3.0 b.2 b.3.1, eq_of_parts s (pos 0))

-- With no least length, the gaps of the gaps of segments are the segments again, for any
-- segments with `i64` bounds that lie within a room of positive `i64` length, in order and apart.
pub invert_segments_twice :
    (hi : ℤ) (rs : List Range)
    → IsI64 hi
    → pos 0 <ℤ hi
    → AllI64 rs
    → IsProper hi rs
    → invert_segments (invert_segments rs hi 0) hi 0 ≡ rs
invert_segments_twice hi rs k p a b = rw (invert_segments-complement hi rs k p a b) (
    invert_segments-complement hi (complement (pos 0) hi rs) k p
      (AllI64-complement (pos 0) hi rs (omega arith) k a) (complement-IsProper hi rs p b)
    ∙ complement_twice hi rs p b)
