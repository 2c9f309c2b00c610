-- ===== src/Base/Word.antt =====
-- Machine integers: `i64`, `u64` and `i16` as integers with their wrap-around written out, and
-- the division of Rust, which rounds towards zero.
use event.Base.Tests.{ltb, leb, if◌then◌else◌}
use event.Base.Int.{ℤ, pos, negsuc, pos_part, neg_part, ◌≤ℤ◌, ◌-ℤ◌, sub_ℕ}
use Prim.Native.Nat.{ℕ, suc, ◌-◌, ◌/◌, ◌%◌, ◌^◌, ◌≤◌, ◌<◌}
use mathlib.Core.Path.{◌≡◌}
use mathlib.Core.Bool.{Bool, ◌&&◌}
use native.Mathlib.Omega.{arith}

-- `x as u64` of an `i64`: the low 64 bits.
unfoldable pub to_u64 : ℤ → ℕ
to_u64 (pos n) = n % 2 ^ 64
to_u64 (negsuc n) = 2 ^ 64 - 1 - n % 2 ^ 64

-- The low 64 bits read as an `i64`.
unfoldable pub wrap_i64 : ℤ → ℤ
unfolding to_u64
wrap_i64 z = if ltb (to_u64 z) (2 ^ 63) then pos (to_u64 z) else negsuc (2 ^ 64 - 1 - to_u64 z)

abbrev pub i64_max : ℤ
i64_max = pos (2 ^ 63 - 1)

abbrev pub i64_min : ℤ
i64_min = negsuc (2 ^ 63 - 1)

-- The value of an `i64`.
abbrev pub IsI64 : ℤ → Type 0
IsI64 z = (pos_part z < 2 ^ 63) × (neg_part z ≤ 2 ^ 63)

abbrev pub fits_i64 : ℤ → Bool
fits_i64 z = ltb (pos_part z) (2 ^ 63) && leb (neg_part z) (2 ^ 63)

-- A value in range is not changed.
pub wrap_i64_lem : (z : ℤ) → IsI64 z → wrap_i64 z ≡ z
unfolding wrap_i64
wrap_i64_lem (pos n) h = ground arith
wrap_i64_lem (negsuc n) h = ground arith

-- The difference of two `i64` in order, computed with wrap-around and read as `u64`, is exact.
pub to_u64-sub : (a b : ℤ) → IsI64 a → IsI64 b → b ≤ℤ a → pos (to_u64 (wrap_i64 (a -ℤ b))) ≡ a -ℤ b
unfolding wrap_i64 ◌-ℤ◌
to_u64-sub (pos a) (pos b) ha hb h = ground arith
to_u64-sub (pos a) (negsuc b) ha hb h = ground arith
to_u64-sub (negsuc a) (pos b) ha hb h = ground arith
to_u64-sub (negsuc a) (negsuc b) ha hb h = ground arith

-- `a / n` on signed integers.
unfoldable pub div_trunc : ℤ → ℕ → ℤ
div_trunc (pos a) n = pos (a / n)
div_trunc (negsuc a) n = sub_ℕ 0 (suc a / n)
