-- ===== src/Ranges.antt =====
-- Lists of half-open ranges `[start, stop)`, the form in which segments and gaps are passed on.
pub mod Cover
use event.Base.{ℤ, pos, Bool, false, ◌&&◌, ◌||◌, List, [], ◌∷◌, ltb_ℤ, leb_ℤ, ◌≤ℤ◌, ◌<ℤ◌}

abbrev pub Range : Type 0
Range = ℤ × ℤ

abbrev pub in_range : ℤ → Range → Bool
in_range x (s, e) = leb_ℤ s x && ltb_ℤ x e

-- The moment lies in one of the ranges.
abbrev pub covers : ℤ → List Range → Bool
covers x [] = false
covers x (r ∷ rs) = in_range x r || covers x rs

-- The ranges begin at the bound or after it, and follow one another; they may touch.
abbrev pub IsOrdered : ℤ → List Range → Type 0
IsOrdered lo [] = Unit
IsOrdered lo ((s, e) ∷ rs) = (lo ≤ℤ s) × (s ≤ℤ e) × IsOrdered e rs

-- The same, and no range is empty.
abbrev pub IsStrict : ℤ → List Range → Type 0
IsStrict lo [] = Unit
IsStrict lo ((s, e) ∷ rs) = (lo ≤ℤ s) × (s <ℤ e) × IsStrict e rs

-- No range ends after the bound.
abbrev pub EndsBy : ℤ → List Range → Type 0
EndsBy hi [] = Unit
EndsBy hi ((s, e) ∷ rs) = (e ≤ℤ hi) × EndsBy hi rs

-- The ranges follow the bound and one another with room between, and no range is empty.
abbrev pub IsApart : ℤ → List Range → Type 0
IsApart lo [] = Unit
IsApart lo ((s, e) ∷ rs) = (lo <ℤ s) × (s <ℤ e) × IsApart e rs

-- The stop of the last range, or the first argument if there is none.
abbrev pub last_stop : ℤ → List Range → ℤ
last_stop e [] = e
last_stop e ((s', e') ∷ rs) = last_stop e' rs
