-- ===== src/Db/Schema/Vector/Compress.antt =====
-- `compress_path`, `decompress_path` and `path_to_json` of `src/db/event/schema.rs`.
use event.Base.{ℕ, pos, Option, some, List, [], ◌∷◌, map}
use event.Db.Schema.Float.{Doubles, Singles, to_u16}
use event.Db.Schema.Vector.{
  PathJson, PathPart, DecodedPath, CompactPathPart, CompactPath, ◌>>=◌, decode_path,
}

module _ {F64 : Type 0} ⦃f : Doubles F64⦄ where
  -- `norm(x, min, length)`.
  norm : F64 → F64 → F64 → Option ℕ
  norm x min length = to_u16 (f.ten_thousands (f.div (f.sub x min) length))

  unfoldable pub compress_part : DecodedPath F64 → PathPart F64 → Option CompactPathPart
  unfolding norm
  compress_part d (PathPart.part_m x y) = norm x d.min_x d.width >>= λ x'.
      norm y d.min_y d.height >>= λ y'. some (CompactPathPart.part_m x' y')
  compress_part d (PathPart.part_q x1 y1 x2 y2) = norm x1 d.min_x d.width >>= λ x1'.
      norm y1 d.min_y d.height >>= λ y1'. norm x2 d.min_x d.width >>= λ x2'.
      norm y2 d.min_y d.height >>= λ y2'. some (CompactPathPart.part_q x1' y1' x2' y2')
  compress_part d (PathPart.part_l x y) = norm x d.min_x d.width >>= λ x'.
      norm y d.min_y d.height >>= λ y'. some (CompactPathPart.part_l x' y')
  compress_part d PathPart.part_z = some CompactPathPart.part_z

  unfoldable pub compress_parts :
      DecodedPath F64 → List (PathPart F64) → Option (List CompactPathPart)
  unfolding compress_part
  compress_parts d [] = some []
  compress_parts d (p ∷ ps) = compress_part d p >>= λ q. compress_parts d ps >>= λ qs. some (q ∷ qs)

  -- `denorm(x, min, length)`.
  denorm : ℕ → F64 → F64 → F64
  denorm x min length =
      f.add min (f.mul (f.div (f.from_int (pos x)) (f.from_int (pos 10000))) length)

  unfoldable pub decompress_part : DecodedPath F64 → CompactPathPart → PathPart F64
  unfolding denorm
  decompress_part d (CompactPathPart.part_m x y) =
      PathPart.part_m (denorm x d.min_x d.width) (denorm y d.min_y d.height)
  decompress_part d (CompactPathPart.part_q x1 y1 x2 y2) =
      PathPart.part_q (denorm x1 d.min_x d.width) (denorm y1 d.min_y d.height)
        (denorm x2 d.min_x d.width) (denorm y2 d.min_y d.height)
  decompress_part d (CompactPathPart.part_l x y) =
      PathPart.part_l (denorm x d.min_x d.width) (denorm y d.min_y d.height)
  decompress_part d CompactPathPart.part_z = PathPart.part_z

  unfoldable pub two_decimal_places : F64 → F64
  two_decimal_places v = f.div (f.round (f.mul v (f.from_int (pos 100)))) (f.from_int (pos 100))

module _ {F32 F64 : Type 0} ⦃f : Doubles F64⦄ ⦃g : Singles F32 F64⦄ where
  unfoldable pub decompress_path : CompactPath F32 → DecodedPath F64
  unfolding decompress_part
  decompress_path path =
      let bounds : DecodedPath F64 = record {
        parts = [];
        min_x = g.to_f64 path.min_x;
        width = g.to_f64 path.width;
        min_y = g.to_f64 path.min_y;
        height = g.to_f64 path.height;
      } in
      record bounds { parts = map (decompress_part bounds) path.parts }

unfoldable pub compress_path :
    {F32 V' : Type 0} (F64 : Type 0) ⦃f : Doubles F64⦄ ⦃g : Singles F32 F64⦄ ⦃j : PathJson F64 V'⦄
    → List V'
    → Option (CompactPath F32)
unfolding compress_parts decode_path
compress_path F64 ⦃f⦄ ⦃g⦄ path = decode_path {F64 = F64} path >>= λ decoded.
    compress_parts decoded decoded.parts >>= λ parts. some (record {
      parts = parts;
      min_x = g.to_f32 decoded.min_x;
      width = g.to_f32 decoded.width;
      min_y = g.to_f32 decoded.min_y;
      height = g.to_f32 decoded.height;
    })

module _ {F64 V' : Type 0} ⦃f : Doubles F64⦄ ⦃j : PathJson F64 V'⦄ where
  unfoldable pub part_to_json : PathPart F64 → V'
  unfolding two_decimal_places
  part_to_json (PathPart.part_m x y) =
      j.array (j.text "M" ∷ j.number (two_decimal_places x) ∷ j.number (two_decimal_places y) ∷ [])
  part_to_json (PathPart.part_q x1 y1 x2 y2) = j.array (
      j.text "Q"
      ∷ j.number (two_decimal_places x1)
      ∷ j.number (two_decimal_places y1)
      ∷ j.number (two_decimal_places x2)
      ∷ j.number (two_decimal_places y2)
      ∷ [])
  part_to_json (PathPart.part_l x y) =
      j.array (j.text "L" ∷ j.number (two_decimal_places x) ∷ j.number (two_decimal_places y) ∷ [])
  part_to_json PathPart.part_z = j.array (j.text "z" ∷ [])

  unfoldable pub path_to_json : DecodedPath F64 → List V'
  unfolding part_to_json
  path_to_json path = map part_to_json path.parts
