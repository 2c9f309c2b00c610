-- ===== src/Ranges/Cover.antt =====
-- Laws of ordered lists of ranges.
use event.Base.{ℤ, ◌≡◌, refl, false, List, [], ◌∷◌, ◌++◌, ◌||◌, ◌≤ℤ◌, ◌<ℤ◌, arith}
use event.Ranges.{Range, covers, IsOrdered, IsStrict, EndsBy, last_stop}

pub IsStrict-IsOrdered : (lo : ℤ) (rs : List Range) → IsStrict lo rs → IsOrdered lo rs
IsStrict-IsOrdered lo [] h = tt
IsStrict-IsOrdered lo ((s, e) ∷ rs) h = ground (arith, IsStrict-IsOrdered e rs h.2)

pub IsOrdered-weaken : (lo hi : ℤ) (rs : List Range) → lo ≤ℤ hi → IsOrdered hi rs → IsOrdered lo rs
IsOrdered-weaken lo hi [] l h = tt
IsOrdered-weaken lo hi ((s, e) ∷ rs) l h = ground arith

-- Nothing before the bound is covered.
pub covers_before : (x lo : ℤ) (rs : List Range) → IsOrdered lo rs → x <ℤ lo → covers x rs ≡ false
covers_before x lo [] h l = refl
covers_before x lo ((s, e) ∷ rs) h l = ground (arith, covers_before x e rs h.2)

pub IsStrict-weaken : (lo hi : ℤ) (rs : List Range) → lo ≤ℤ hi → IsStrict hi rs → IsStrict lo rs
IsStrict-weaken lo hi [] l h = tt
IsStrict-weaken lo hi ((s, e) ∷ rs) l h = ground arith

pub covers-append :
    (x : ℤ) (rs qs : List Range) → covers x (rs ++ qs) ≡ (covers x rs || covers x qs)
covers-append x [] qs = refl
covers-append x (r ∷ rs) qs = ground (arith, covers-append x rs qs)

pub le-last_stop : (e : ℤ) (rs : List Range) → IsOrdered e rs → e ≤ℤ last_stop e rs
le-last_stop e [] h = omega arith
le-last_stop e ((s, e') ∷ rs) h = omega (arith, le-last_stop e' rs h.2)

pub last_stop-le : (e hi : ℤ) (rs : List Range) → e ≤ℤ hi → EndsBy hi rs → last_stop e rs ≤ℤ hi
last_stop-le e hi [] l h = l
last_stop-le e hi ((s, e') ∷ rs) l h = last_stop-le e' hi rs h.0 h.1

-- Nothing from the last stop on is covered.
pub covers_after :
    (x e : ℤ) (rs : List Range) → IsOrdered e rs → last_stop e rs ≤ℤ x → covers x rs ≡ false
covers_after x e [] h l = refl
covers_after x e ((s, e') ∷ rs) h l =
    ground (arith, covers_after x e' rs h.2 l, le-last_stop e' rs h.2)
