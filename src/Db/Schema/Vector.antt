-- ===== src/Db/Schema/Vector.antt =====
-- The path of a drawing in `src/db/event/schema.rs`: decoded from JSON, compressed to 16-bit
-- coordinates within its bounds, and back.
pub mod Compress
pub mod RoundTrip
use event.Base.{
  ℕ, ℤ, pos, Bool, Option, none, some, String, str_eq, List, [], ◌∷◌, map, ◌≡◌, refl, if◌then◌else◌,
}
use event.Db.Schema.Float.{Doubles, Singles, to_u16}
use mathlib.Core.Option

-- What the code uses of `serde_json::Value` here.
pub record PathJson (F64 V' : Type 0) : Type 0 where
  pub as_array : V' → Option (List V')
  pub as_str : V' → Option String
  pub as_f64 : V' → Option F64
  pub array : List V' → V'
  pub text : String → V'
  pub number : F64 → V'

-- What a constructor of JSON gives is read as what it was given; a number that is not finite gives
-- null.
pub record PathJsonLaws (F64 V' : Type 0) (j : PathJson F64 V') (IsFinite : F64 → Type 0)
    : Type 0 where
  pub as_array-array : (l : List V') → j.as_array (j.array l) ≡ some l
  pub as_str-text : (s : String) → j.as_str (j.text s) ≡ some s
  pub as_f64-number : (x : F64) → IsFinite x → j.as_f64 (j.number x) ≡ some x

-- The text form of `serde_json::Value`. A float need not be read from its text as it was.
pub record JsonText (V' : Type 0) : Type 0 where
  pub to_string : V' → String
  pub from_str : String → Option V'

-- `PathPart`.
pub data PathPart (F64 : Type 0) : Type 0 where
  part_m : F64 → F64 → PathPart F64
  part_q : F64 → F64 → F64 → F64 → PathPart F64
  part_l : F64 → F64 → PathPart F64
  part_z : PathPart F64

-- `Path`.
pub record DecodedPath (F64 : Type 0) : Type 0 where
  pub parts : List (PathPart F64)
  pub min_x : F64
  pub width : F64
  pub min_y : F64
  pub height : F64

pub data CompactPathPart : Type 0 where
  part_m : ℕ → ℕ → CompactPathPart
  part_q : ℕ → ℕ → ℕ → ℕ → CompactPathPart
  part_l : ℕ → ℕ → CompactPathPart
  part_z : CompactPathPart

pub record CompactPath (F32 : Type 0) : Type 0 where
  pub parts : List CompactPathPart
  pub min_x : F32
  pub width : F32
  pub min_y : F32
  pub height : F32

infixl 5 ◌>>=◌
abbrev pub ◌>>=◌ {ℓ κ} : {A : Type ℓ} {B : Type κ} → Option A → (A → Option B) → Option B
none >>= f = none
some a >>= f = f a

pub >>=-eq-some {ℓ κ} :
    {A : Type ℓ} {B : Type κ} (m : Option A) (f : A → Option B) {b : B}
    → (m >>= f) ≡ some b
    → (a : A) × (m ≡ some a) × (f a ≡ some b)
>>=-eq-some none f h = cc
>>=-eq-some (some a) f h = (a, refl, h)

-- `min_x`, `max_x`, `min_y` and `max_y` of the loop.
pub record Extent (F64 : Type 0) : Type 0 where
  pub min_x : F64
  pub max_x : F64
  pub min_y : F64
  pub max_y : F64

abbrev pub nth {ℓ} : {A : Type ℓ} → List A → ℕ → Option A
nth [] i = none
nth (a ∷ as') ℕ.zero = some a
nth (a ∷ as') (ℕ.suc i) = nth as' i

-- `as_f64(arr, idx)`.
pub as_f64 : {F64 V' : Type 0} ⦃j : PathJson F64 V'⦄ → List V' → ℕ → Option F64
as_f64 ⦃j⦄ arr idx = nth arr idx >>= j.as_f64

module _ {F64 : Type 0} ⦃f : Doubles F64⦄ where
  widen_x : F64 → Extent F64 → Extent F64
  widen_x x b = record b {
    min_x = if f.lt x b.min_x then x else b.min_x;
    max_x = if f.lt b.max_x x then x else b.max_x;
  }

  widen_y : F64 → Extent F64 → Extent F64
  widen_y y b = record b {
    min_y = if f.lt y b.min_y then y else b.min_y;
    max_y = if f.lt b.max_y y then y else b.max_y;
  }

  -- The bounds after one part of the path.
  widen : PathPart F64 → Extent F64 → Extent F64
  unfolding widen_x widen_y
  widen (PathPart.part_m x y) b = widen_y y (widen_x x b)
  widen (PathPart.part_l x y) b = widen_y y (widen_x x b)
  widen (PathPart.part_q x1 y1 x2 y2) b = widen_y y2 (widen_x x2 (widen_y y1 (widen_x x1 b)))
  widen PathPart.part_z b = b

  widen_all : List (PathPart F64) → Extent F64 → Extent F64
  unfolding widen
  widen_all [] b = b
  widen_all (p ∷ ps) b = widen_all ps (widen p b)

  initial_extent : Extent F64
  initial_extent = record {
    min_x = f.max_value;
    max_x = f.min_value;
    min_y = f.max_value;
    max_y = f.min_value;
  }

-- The `match` on the label.
pub decode_labelled :
    {F64 V' : Type 0} ⦃j : PathJson F64 V'⦄ → String → List V' → Option (PathPart F64)
unfolding as_f64
decode_labelled label arr =
    if str_eq label "M"
    then (as_f64 arr 1 >>= λ x. as_f64 arr 2 >>= λ y. some (PathPart.part_m x y))
    else if str_eq label "L"
    then (as_f64 arr 1 >>= λ x. as_f64 arr 2 >>= λ y. some (PathPart.part_l x y))
    else if str_eq label "Q"
    then (as_f64 arr 1 >>= λ x1. as_f64 arr 2 >>= λ y1.
        as_f64 arr 3 >>= λ x2. as_f64 arr 4 >>= λ y2. some (PathPart.part_q x1 y1 x2 y2))
    else if str_eq label "z"
    then some PathPart.part_z
    else none

pub decode_part : {F64 V' : Type 0} ⦃j : PathJson F64 V'⦄ → V' → Option (PathPart F64)
unfolding decode_labelled
decode_part ⦃j⦄ part = j.as_array part >>= λ arr.
    nth arr 0 >>= λ first. j.as_str first >>= λ label. decode_labelled label arr

pub decode_parts : {F64 V' : Type 0} ⦃j : PathJson F64 V'⦄ → List V' → Option (List (PathPart F64))
unfolding decode_part
decode_parts [] = some []
decode_parts (v ∷ vs) = decode_part v >>= λ p. decode_parts vs >>= λ ps. some (p ∷ ps)

-- The result of the loop with its bounds.
pub with_extent : {F64 : Type 0} ⦃f : Doubles F64⦄ → List (PathPart F64) → DecodedPath F64
unfolding widen_all initial_extent
with_extent ⦃f⦄ parts =
    let b = widen_all parts initial_extent in
    record {
      parts = parts;
      min_x = b.min_x;
      width = f.sub b.max_x b.min_x;
      min_y = b.min_y;
      height = f.sub b.max_y b.min_y;
    }

-- Where a part fails the bounds so far are dropped with the rest, so they are taken at the end.
unfoldable pub decode_path :
    {F64 V' : Type 0} ⦃f : Doubles F64⦄ ⦃j : PathJson F64 V'⦄ → List V' → Option (DecodedPath F64)
unfolding decode_parts with_extent
decode_path path = decode_parts path >>= λ parts. some (with_extent parts)
