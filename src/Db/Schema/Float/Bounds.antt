-- ===== src/Db/Schema/Float/Bounds.antt =====
-- Which numbers the conversions of `src/db/event/schema.rs` keep.
use event.Base.{
  ℕ, ◌<◌, ◌^◌, ◌-◌, ℤ, pos, negsuc, ◌<ℤ◌, ◌≤ℤ◌, ◌≡◌, ◌≢◌, ◌↔◌, ◌⊎◌, some, inl, inr, refl, arith,
}
use event.Db.Schema.Float.{
  Truncated, nan, below, above, whole, f32tu16, f32ti32, f32ti16, as_i16, i32_max, i32_min,
}

-- A conversion to `i32` gives a number exactly when the float is that number, in range and off
-- both ends, or is NaN and the number is 0.
pub f32ti32_iff :
    (f : Truncated) (z : ℤ)
    → (f32ti32 f ≡ some z)
      ↔ (((f ≡ whole z) × (i32_min <ℤ z) × (z <ℤ i32_max)) ⊎ ((f ≡ nan) × (z ≡ pos 0)))
unfolding f32ti32
f32ti32_iff nan z = ground arith
f32ti32_iff below z = ground arith
f32ti32_iff above z = ground arith
f32ti32_iff (whole (pos n)) z = ground arith
f32ti32_iff (whole (negsuc n)) z = ground arith

whole_neg : (m n : ℕ) → whole (negsuc m) ≢ whole (pos n)
whole_neg m n e = cc

-- A conversion to `u16` gives exactly the numbers below the greatest `u16`, and 0 for all that
-- is negative or NaN.
pub f32tu16_iff :
    (f : Truncated) (n : ℕ)
    → (f32tu16 f ≡ some n) ↔ (
        ((f ≡ whole (pos n)) × (n < 2 ^ 16 - 1))
        ⊎ ((n ≡ 0) × ((f ≡ nan) ⊎ (f ≡ below) ⊎ ((k : ℕ) × (f ≡ whole (negsuc k))))))
unfolding f32tu16
f32tu16_iff nan n = ground arith
f32tu16_iff below n = ground arith
f32tu16_iff above n = ground arith
f32tu16_iff (whole (pos m)) n = ground arith
f32tu16_iff (whole (negsuc m)) n = (
  (λ e. inr (cc, inr (inr (m, refl)))),
  λ h. elim h [ inl p ↦ absurd (whole_neg m n p.0) | inr p ↦ cc (p.0) ],
)

-- A conversion to `i16` is exact for a number in range of `i16`.
pub f32ti16_exact :
    (z : ℤ) → negsuc (2 ^ 15 - 1) ≤ℤ z → z ≤ℤ pos (2 ^ 15 - 1) → f32ti16 (whole z) ≡ some z
unfolding f32ti16
f32ti16_exact (pos n) l h = ground arith
f32ti16_exact (negsuc n) l h = ground arith

-- Every number that is out of range of `i16`, but in range of `i32` and off both its ends, is
-- converted to another number in place of an error.
pub f32ti16_wraps :
    (z : ℤ)
    → ((pos (2 ^ 15 - 1) <ℤ z) ⊎ (z <ℤ negsuc (2 ^ 15 - 1)))
    → i32_min <ℤ z
    → z <ℤ i32_max
    → (r : ℤ) × (f32ti16 (whole z) ≡ some r) × (r ≢ z)
unfolding f32ti16
f32ti16_wraps (pos n) h l k = (as_i16 (pos n), ground arith, ground arith)
f32ti16_wraps (negsuc n) h l k = (as_i16 (negsuc n), ground arith, ground arith)
