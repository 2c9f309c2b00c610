-- ===== src/AdjustRoom/CloneEvents/Shift.antt =====
-- The shifted time of an event is the time that the gaps leave before it (the query of
-- `clone_events` in `src/app/operations/adjust_room.rs`).
use event.Base.{
  ℕ, zero, suc, ◌+◌, ◌≤◌, ℤ, pos, negsuc, ◌||◌, Bool-cases, inl, inr, ◌+ℤ◌, ◌-ℤ◌, ◌≤ℤ◌, ◌<ℤ◌, ◌≡◌,
  refl, Bool, true, false, ◌&&◌, List, [], ◌∷◌, ok, arith, int_laws, ltb_ℤ, leb_ℤ, min_ℤ,
  if◌then◌else◌, eq_of_parts, eqb_ℤ, some, pos_part, neg_part, ◌-◌, sym, ap, subst,
}
use event.Ranges.{Range, covers, in_range, IsStrict}
use event.Ranges.Cover.{covers_before, IsStrict-IsOrdered}
use event.AdjustRoom.CloneEvents.{cut_before, stops_at_zero, case_first, shift}

-- How many of the first `n` nanoseconds of the room lie in no gap.
pub kept : List Range → ℕ → ℕ
kept gaps zero = 0
kept gaps (suc n) = kept gaps n + (if covers (pos n) gaps then 0 else 1)

-- What one gap takes before a moment.
abbrev part : Range → ℤ → ℤ
part (s, e) t = if ltb_ℤ s t && leb_ℤ (pos 0) s then min_ℤ e t -ℤ s else pos 0

abbrev bit : Bool → ℤ
bit b = if b then pos 1 else pos 0

split_if : (c : Bool) (p r : ℤ) → (if c then p +ℤ r else r) ≡ (if c then p else pos 0) +ℤ r
split_if true p r = refl
split_if false p r = omega int_laws

cut_before-cons :
    (s e t : ℤ) (gaps : List Range)
    → cut_before ((s, e) ∷ gaps) t ≡ part (s, e) t +ℤ cut_before gaps t
unfolding cut_before
cut_before-cons s e t gaps =
    split_if (ltb_ℤ s t && leb_ℤ (pos 0) s) (min_ℤ e t -ℤ s) (cut_before gaps t)

part-suc :
    (s e : ℤ) (n : ℕ)
    → pos 0 ≤ℤ s
    → s <ℤ e
    → part (s, e) (pos (suc n)) ≡ part (s, e) (pos n) +ℤ bit (in_range (pos n) (s, e))
unfolding ◌+ℤ◌ ◌-ℤ◌
part-suc (pos a) (pos b) n h k = ground arith
part-suc (pos a) (negsuc b) n h k = absurd (omega arith)
part-suc (negsuc a) e n h k = absurd (omega arith)

bit-or : (b c : Bool) → (b ≡ true → c ≡ false) → bit (b || c) ≡ bit b +ℤ bit c
unfolding ◌+ℤ◌
bit-or b c h = ground arith

regroup : (p r u v : ℤ) → (p +ℤ u) +ℤ (r +ℤ v) ≡ (p +ℤ r) +ℤ (u +ℤ v)
regroup p r u v = omega int_laws

cut_before-suc :
    (lo : ℤ) (gaps : List Range) (n : ℕ)
    → pos 0 ≤ℤ lo
    → IsStrict lo gaps
    → cut_before gaps (pos (suc n)) ≡ cut_before gaps (pos n) +ℤ bit (covers (pos n) gaps)
cut_before-suc lo [] n l h = unfold cut_before ◌+ℤ◌ in refl
cut_before-suc lo ((s, e) ∷ gaps) n l h =
    rw
      (
        cut_before-cons s e (pos (suc n)) gaps,
        cut_before-cons s e (pos n) gaps,
        part-suc s e n (omega arith) h.1,
        cut_before-suc e gaps n (omega arith) h.2,
        bit-or (in_range (pos n) (s, e)) (covers (pos n) gaps)
            (λ c. covers_before (pos n) e gaps (IsStrict-IsOrdered e gaps h.2) (ground arith)),
      )
      (regroup _ _ _ _)

cut_before-zero :
    (lo : ℤ) (gaps : List Range) → pos 0 ≤ℤ lo → IsStrict lo gaps → cut_before gaps (pos 0) ≡ pos 0
unfolding cut_before
cut_before-zero lo [] l h = refl
cut_before-zero lo ((s, e) ∷ gaps) l h = ground (arith, cut_before-zero e gaps (omega arith) h.2)

kept_step :
    (cut : ℤ) (n k : ℕ) (b : Bool)
    → pos n -ℤ cut ≡ pos k
    → pos (suc n) -ℤ (cut +ℤ bit b) ≡ pos (k + (if b then 0 else 1))
kept_step cut n k true e = omega (int_laws, ap pos_part e, ap neg_part e)
kept_step cut n k false e = omega (int_laws, ap pos_part e, ap neg_part e)

-- The time that the gaps take before a moment, and the time kept, make up the whole.
pub sub-cut_before :
    (gaps : List Range) (n : ℕ)
    → IsStrict (pos 0) gaps
    → pos n -ℤ cut_before gaps (pos n) ≡ pos (kept gaps n)
unfolding kept
sub-cut_before gaps zero h = rw (cut_before-zero (pos 0) gaps (omega arith) h) (unfold ◌-ℤ◌ in refl)
sub-cut_before gaps (suc n) h = rw (cut_before-suc (pos 0) gaps n (omega arith) h) (
    kept_step (cut_before gaps (pos n)) n (kept gaps n) (covers (pos n) gaps)
      (sub-cut_before gaps n h))

cut_before_late :
    (lo t : ℤ) (gaps : List Range) → IsStrict lo gaps → t ≤ℤ lo → cut_before gaps t ≡ pos 0
unfolding cut_before
cut_before_late lo t [] h l = refl
cut_before_late lo t ((s, e) ∷ gaps) h l =
    ground (arith, cut_before_late e t gaps h.2 (omega arith))

stops_at_zero_late :
    (lo : ℤ) (gaps : List Range) → IsStrict lo gaps → pos 0 <ℤ lo → stops_at_zero gaps ≡ []
unfolding stops_at_zero
stops_at_zero_late lo [] h l = refl
stops_at_zero_late lo ((s, e) ∷ gaps) h l =
    ground (arith, stops_at_zero_late e gaps h.2 (omega arith))

part_whole : (e : ℤ) (n : ℕ) → pos n ≤ℤ e → pos n -ℤ (part (pos 0, e) (pos n) +ℤ pos 0) ≡ pos 0
unfolding ◌-ℤ◌ ◌+ℤ◌
part_whole (pos e) n l = ground arith
part_whole (negsuc e) n l = absurd (omega arith)

-- Within a first gap that begins with the room nothing is kept.
sub-cut_before_first :
    (e : ℤ) (gaps : List Range) (n : ℕ)
    → IsStrict (pos 0) ((pos 0, e) ∷ gaps)
    → pos n ≤ℤ e
    → pos n -ℤ cut_before ((pos 0, e) ∷ gaps) (pos n) ≡ pos 0
sub-cut_before_first e gaps n h l =
    rw (cut_before-cons (pos 0) e (pos n) gaps, cut_before_late e (pos n) gaps h.2 l)
      (part_whole e n l)

case_first_lem :
    (first : ℤ) (t cut kept : ℤ)
    → t -ℤ cut ≡ kept
    → (t ≤ℤ first → t -ℤ cut ≡ pos 0)
    → case_first (some first) t cut ≡ kept
case_first_lem first t cut kept e z = ground arith

-- For gaps in order from the opening of the room, none of them empty, the shift of a moment is
-- the number of nanoseconds before it that lie in no gap.
pub shift-kept :
    (gaps : List Range) (n : ℕ)
    → IsStrict (pos 0) gaps
    → shift gaps (pos n) ≡ ok (pos (kept gaps n))
unfolding shift
shift-kept [] n h = rw (sub-cut_before [] n h)
shift-kept ((s, e) ∷ gaps) n h =
    let whole = sub-cut_before ((s, e) ∷ gaps) n h in
    elim (Bool-cases (eqb_ℤ s (pos 0))) [
      | inl z ↦
          let s0 : s ≡ pos 0 = eq_of_parts s (pos 0) (ground arith) in
          rw (stops_at_zero, z, stops_at_zero_late e gaps h.2 (omega arith))
            (ap ok (
              case_first_lem e (pos n) _ _ whole (λ l.
                subst (λ s'. pos n -ℤ cut_before ((s', e) ∷ gaps) (pos n) ≡ pos 0) (sym s0)
                  (sub-cut_before_first e gaps n
                    (subst (λ s'. IsStrict (pos 0) ((s', e) ∷ gaps)) s0 h) l))))
      | inr z ↦ rw (stops_at_zero, z, stops_at_zero_late e gaps h.2 (ground arith)) (ap ok whole)
    ]

kept_mono : (gaps : List Range) (k n : ℕ) → kept gaps n ≤ kept gaps (k + n)
unfolding kept
kept_mono gaps zero n = let e : 0 + n ≡ n = omega arith in rw e (omega arith)
kept_mono gaps (suc k) n =
    let e : suc k + n ≡ suc (k + n) = omega arith in rw e (omega (arith, kept_mono gaps k n))

kept_lipschitz : (gaps : List Range) (k n : ℕ) → kept gaps (k + n) ≤ k + kept gaps n
unfolding kept
kept_lipschitz gaps zero n = let e : 0 + n ≡ n = omega arith in rw e (omega arith)
kept_lipschitz gaps (suc k) n =
    let e : suc k + n ≡ suc (k + n) = omega arith in rw e (grind (arith, kept_lipschitz gaps k n))

-- For gaps in order from the opening of the room, none of them empty, the shift keeps the order
-- of moments from the opening on, and never puts them further apart than they were.
pub shift_mono :
    (gaps : List Range) (n m : ℕ) {s t : ℤ}
    → IsStrict (pos 0) gaps
    → n ≤ m
    → shift gaps (pos n) ≡ ok s
    → shift gaps (pos m) ≡ ok t
    → (s ≤ℤ t) × (t -ℤ s ≤ℤ pos (m - n))
shift_mono gaps n m {s} {t} h l p q =
    let ps : s ≡ pos (kept gaps n) = cc (shift-kept gaps n h) in
    let qt : t ≡ pos (kept gaps m) = cc (shift-kept gaps m h) in
    let e : (m - n) + n ≡ m = omega arith in
    let up : kept gaps n ≤ kept gaps m = rw e at (kept_mono gaps (m - n) n) in
    let near : kept gaps m ≤ (m - n) + kept gaps n = rw e at (kept_lipschitz gaps (m - n) n) in
    rw (ps, qt) (omega arith, omega (int_laws, up, near))
