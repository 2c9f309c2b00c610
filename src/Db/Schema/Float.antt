-- ===== src/Db/Schema/Float.antt =====
-- Floats as `src/db/event/schema.rs` uses them, and its conversions to integers. The operations of
-- `f32` and `f64` are parameters; the casts by `as` are those of the language.
pub mod Bounds
use event.Base.{
  ℕ, zero, suc, ◌-◌, ◌+◌, ◌^◌, ◌%◌, ℤ, pos, negsuc, Bool, true, false, ◌&&◌, Option, none, some,
  ltb, ltb_ℤ, if◌then◌else◌,
}

-- The value of a float after `trunc()`.
pub data Truncated : Type 0 where
  nan : Truncated
  below : Truncated  -- -∞
  above : Truncated  -- +∞
  whole : ℤ → Truncated

-- `f64`.
pub record Doubles (F64 : Type 0) : Type 0 where
  pub ten_thousands : F64 → Truncated  -- `(x * 10000.0).trunc()`
  pub add : F64 → F64 → F64
  pub sub : F64 → F64 → F64
  pub mul : F64 → F64 → F64
  pub div : F64 → F64 → F64
  pub round : F64 → F64
  pub lt : F64 → F64 → Bool
  pub from_int : ℤ → F64  -- an integer `as f64`, or a literal
  pub max_value : F64  -- `f64::MAX`
  pub min_value : F64  -- `f64::MIN`

-- `f32`.
pub record Singles (F32 F64 : Type 0) : Type 0 where
  pub hundreds : F32 → Truncated  -- `(f * 100.0).trunc()`
  pub to_f32 : F64 → F32  -- `as f32`
  pub to_f64 : F32 → F64  -- `as f64`
  pub from_u8 : ℕ → F32  -- a `u8` `as f32`

-- A float `as` an unsigned integer of `w` bits: saturating, and 0 for NaN.
as_unsigned : ℕ → Truncated → ℕ
as_unsigned w nan = 0
as_unsigned w below = 0
as_unsigned w above = 2 ^ w - 1
as_unsigned w (whole (pos n)) = if ltb n (2 ^ w) then n else 2 ^ w - 1
as_unsigned w (whole (negsuc n)) = 0

-- A float `as i64`.
as_i64 : Truncated → ℤ
as_i64 nan = pos 0
as_i64 below = negsuc (2 ^ 63 - 1)
as_i64 above = pos (2 ^ 63 - 1)
as_i64 (whole (pos n)) = if ltb n (2 ^ 63) then pos n else pos (2 ^ 63 - 1)
as_i64 (whole (negsuc n)) = if ltb n (2 ^ 63) then negsuc n else negsuc (2 ^ 63 - 1)

-- An `i64` `as i16`: the low 16 bits.
as_i16 : ℤ → ℤ
as_i16 (pos n) =
    if ltb (n % 2 ^ 16) (2 ^ 15) then pos (n % 2 ^ 16) else negsuc (2 ^ 16 - 1 - n % 2 ^ 16)
as_i16 (negsuc n) =
    if ltb (n % 2 ^ 16) (2 ^ 15) then negsuc (n % 2 ^ 16) else pos (2 ^ 16 - 1 - n % 2 ^ 16)

-- The argument of each is `(f * 100.0).trunc()`.
unfoldable pub f32tu32 : Truncated → Option ℕ
unfolding as_unsigned
f32tu32 f = if ltb (as_unsigned 64 f) (2 ^ 32 - 1) then some (as_unsigned 32 f) else none

unfoldable pub f32tu16 : Truncated → Option ℕ
unfolding as_unsigned
f32tu16 f = if ltb (as_unsigned 64 f) (2 ^ 16 - 1) then some (as_unsigned 16 f) else none

unfoldable pub f32tu8 : Truncated → Option ℕ
unfolding as_unsigned
f32tu8 f = if ltb (as_unsigned 64 f) (2 ^ 8 - 1) then some (as_unsigned 8 f) else none

abbrev pub i32_max : ℤ
i32_max = pos (2 ^ 31 - 1)

abbrev pub i32_min : ℤ
i32_min = negsuc (2 ^ 31 - 1)

-- The value is in range of `i32`, so the cast changes nothing.
unfoldable pub f32ti32 : Truncated → Option ℤ
unfolding as_i64
f32ti32 f = if ltb_ℤ (as_i64 f) i32_max && ltb_ℤ i32_min (as_i64 f) then some (as_i64 f) else none

-- The bounds that are tested are those of `i32`.
unfoldable pub f32ti16 : Truncated → Option ℤ
unfolding as_i64 as_i16
f32ti16 f =
    if ltb_ℤ (as_i64 f) i32_max && ltb_ℤ i32_min (as_i64 f) then some (as_i16 (as_i64 f)) else none

-- `to_u16` of `compress_path`, of `(x * 10000.0).trunc()`.
unfoldable pub to_u16 : Truncated → Option ℕ
unfolding as_unsigned
to_u16 x = if ltb (as_unsigned 64 x) (2 ^ 16 - 1) then some (as_unsigned 64 x) else none
