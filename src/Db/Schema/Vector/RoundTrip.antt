-- ===== src/Db/Schema/Vector/RoundTrip.antt =====
-- What compressing a path keeps, and what the restored path decodes to
-- (`src/db/event/schema.rs`).
use event.Base.{none, some, List, [], ◌∷◌, map, All, ◌≡◌, refl, ap, ◌∙◌, arith}
use mathlib.Core.Path.{ap₂}
use event.Db.Schema.Float.{Doubles, Singles}
use event.Db.Schema.Vector.{
  PathJsonLaws, PathJson, PathPart, DecodedPath, CompactPathPart, CompactPath, >>=-eq-some,
  with_extent, decode_path, decode_part, decode_parts, decode_labelled,
}
use event.Db.Schema.Vector.Compress.{
  compress_part, compress_parts, compress_path, decompress_part, decompress_path,
  two_decimal_places, part_to_json, path_to_json,
}

-- The letter of a part.
pub data Letter : Type 0 where
  letter_m letter_q letter_l letter_z : Letter

pub letter : {F64 : Type 0} → PathPart F64 → Letter
letter (PathPart.part_m x y) = letter_m
letter (PathPart.part_q x1 y1 x2 y2) = letter_q
letter (PathPart.part_l x y) = letter_l
letter PathPart.part_z = letter_z

abbrev round_part : {F64 : Type 0} ⦃f : Doubles F64⦄ → PathPart F64 → PathPart F64
round_part (PathPart.part_m x y) = PathPart.part_m (two_decimal_places x) (two_decimal_places y)
round_part (PathPart.part_q x1 y1 x2 y2) =
    PathPart.part_q (two_decimal_places x1) (two_decimal_places y1) (two_decimal_places x2)
      (two_decimal_places y2)
round_part (PathPart.part_l x y) = PathPart.part_l (two_decimal_places x) (two_decimal_places y)
round_part PathPart.part_z = PathPart.part_z

-- The coordinates of the part have the property.
abbrev pub Coordinates : {F64 : Type 0} → (F64 → Type 0) → PathPart F64 → Type 0
Coordinates P (PathPart.part_m x y) = P x × P y
Coordinates P (PathPart.part_q x1 y1 x2 y2) = P x1 × P y1 × P x2 × P y2
Coordinates P (PathPart.part_l x y) = P x × P y
Coordinates P PathPart.part_z = Unit

-- The coordinates of the part, rounded to two decimal places, have the property.
abbrev pub RoundsTo : {F64 : Type 0} ⦃f : Doubles F64⦄ → (F64 → Type 0) → PathPart F64 → Type 0
RoundsTo P p = Coordinates P (round_part p)

module _ {F64 : Type 0} (V' : Type 0) (IsFinite : F64 → Type 0) ⦃f : Doubles F64⦄
    ⦃j : PathJson F64 V'⦄ ⦃law : PathJsonLaws F64 V' j IsFinite⦄ where
  decode_part-part_to_json :
      (p : PathPart F64)
      → RoundsTo IsFinite p
      → decode_part (part_to_json {V' = V'} p) ≡ some (round_part p)
  unfolding decode_part part_to_json
  decode_part-part_to_json (PathPart.part_m x y) (a, b) = simp (
    law.as_array-array,
    law.as_str-text,
    law.as_f64-number _ a,
    law.as_f64-number _ b,
    decode_labelled,
  )
  decode_part-part_to_json (PathPart.part_q x1 y1 x2 y2) (a, b, c, d) = simp (
    law.as_array-array,
    law.as_str-text,
    law.as_f64-number _ a,
    law.as_f64-number _ b,
    law.as_f64-number _ c,
    law.as_f64-number _ d,
  )
  decode_part-part_to_json (PathPart.part_l x y) (a, b) =
      simp (law.as_array-array, law.as_str-text, law.as_f64-number _ a, law.as_f64-number _ b)
  decode_part-part_to_json PathPart.part_z h = simp (law.as_array-array, law.as_str-text)

  decode_parts-map :
      (ps : List (PathPart F64))
      → All (RoundsTo IsFinite) ps
      → decode_parts (map (part_to_json {V' = V'}) ps) ≡ some (map round_part ps)
  unfolding decode_parts
  decode_parts-map [] h = refl
  decode_parts-map (p ∷ ps) (h, k) = rw (decode_part-part_to_json p h, decode_parts-map ps k)

-- The letter of a compact part.
compact_letter : CompactPathPart → Letter
compact_letter (CompactPathPart.part_m x y) = letter_m
compact_letter (CompactPathPart.part_q x1 y1 x2 y2) = letter_q
compact_letter (CompactPathPart.part_l x y) = letter_l
compact_letter CompactPathPart.part_z = letter_z

module _ {F64 : Type 0} ⦃f : Doubles F64⦄ where
  letter-decompress_part :
      (d : DecodedPath F64) (q : CompactPathPart) → letter (decompress_part d q) ≡ compact_letter q
  unfolding letter decompress_part compact_letter
  letter-decompress_part d (CompactPathPart.part_m x y) = refl
  letter-decompress_part d (CompactPathPart.part_q x1 y1 x2 y2) = refl
  letter-decompress_part d (CompactPathPart.part_l x y) = refl
  letter-decompress_part d CompactPathPart.part_z = refl

  letter-compress_part :
      (d : DecodedPath F64) (p : PathPart F64) {q : CompactPathPart}
      → compress_part d p ≡ some q
      → compact_letter q ≡ letter p
  unfolding letter compress_part compact_letter
  letter-compress_part d (PathPart.part_m x y) h = ground arith
  letter-compress_part d (PathPart.part_q x1 y1 x2 y2) h = ground arith
  letter-compress_part d (PathPart.part_l x y) h = ground arith
  letter-compress_part d PathPart.part_z h = ground arith

  letter-round_part : (p : PathPart F64) → letter (round_part p) ≡ letter p
  unfolding letter
  letter-round_part (PathPart.part_m x y) = refl
  letter-round_part (PathPart.part_q x1 y1 x2 y2) = refl
  letter-round_part (PathPart.part_l x y) = refl
  letter-round_part PathPart.part_z = refl

  -- The parts that come back have the letters of those that were compressed.
  letters_restored :
      (d b : DecodedPath F64) (ps : List (PathPart F64)) {qs : List CompactPathPart}
      → compress_parts d ps ≡ some qs
      → map letter (map round_part (map (decompress_part b) qs)) ≡ map letter ps
  unfolding compress_parts
  letters_restored d b [] {qs} h = let e : [] ≡ qs = cc in rw (← e) refl
  letters_restored d b (p ∷ ps) {qs} h =
      let (q, hq, h') = >>=-eq-some (compress_part d p) _ h in
      let (qs', hqs, h'') = >>=-eq-some (compress_parts d ps) _ h' in
      let e : (q ∷ qs') ≡ qs = cc in
      rw (← e) (
        ap₂ (λ x xs. x ∷ xs)
          (letter-round_part (decompress_part b q)
            ∙ letter-decompress_part b q
            ∙ letter-compress_part d p hq)
          (letters_restored d b ps hqs))

module _ {F32 F64 V' : Type 0} (IsFinite : F64 → Type 0) ⦃f : Doubles F64⦄ ⦃g : Singles F32 F64⦄
    ⦃j : PathJson F64 V'⦄ ⦃law : PathJsonLaws F64 V' j IsFinite⦄ where
  -- A path that was compressed and restored decodes again, to parts with the same letters in the
  -- same order, if the restored coordinates, rounded to two decimal places, are finite.
  pub decode_path-restored :
      (path : List V') (c : CompactPath F32)
      → compress_path F64 path ≡ some c
      → All (RoundsTo IsFinite) (decompress_path {F64 = F64} c).parts
      → (d d' : DecodedPath F64) × (decode_path path ≡ some d)
        × (decode_path (path_to_json {V' = V'} (decompress_path {F64 = F64} c)) ≡ some d')
        × (map letter d'.parts ≡ map letter d.parts)
  unfolding compress_path decode_path path_to_json decompress_path with_extent
  decode_path-restored path c h finite =
      let (d, hd, h') = >>=-eq-some (decode_path {F64 = F64} path) _ h in
      let (qs, hq, h'') = >>=-eq-some (compress_parts d d.parts) _ h' in
      let e : qs ≡ c.parts = ap (λ o. elim o [ none ↦ qs | some k ↦ k.parts ]) h'' in
      let restored : List (PathPart F64) = (decompress_path {F64 = F64} c).parts in
      let bounds : DecodedPath F64 = record {
        parts = [];
        min_x = g.to_f64 c.min_x;
        width = g.to_f64 c.width;
        min_y = g.to_f64 c.min_y;
        height = g.to_f64 c.height;
      } in
      (
        d,
        with_extent (map round_part restored),
        hd,
        rw (decode_parts-map V' IsFinite restored finite),
        letters_restored d bounds d.parts (hq ∙ ap some e),
      )
