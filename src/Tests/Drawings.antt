-- ===== src/Tests/Drawings.antt =====
-- Examples of drawings, with one path that is compacted and restored.
use event.Base.{
  str_eq, if◌then◌else◌, Option, ℕ, ℤ, pos, ◌≡◌, ◌≢◌, inl, refl, false, none, some, String, List,
  [], ◌∷◌, map, ok, arith,
}
use event.Db.Schema.Enums.{
  FillRule, GlobalCompositeOperation, Kind, Origin, PaintFirst, StrokeLineCap, StrokeLineJoin,
}
use event.Db.Schema.Records.{EventSchema}
use event.Db.Schema.Float.{whole, f32tu32, f32tu8, to_u16, f32ti32, f32ti16, f32tu16}
use event.Db.Schema.Float.Bounds.{f32ti16_wraps}
use event.Db.Schema.Compact.{Event, CompactEvent, other, from_json, into_json, into_json-from_json}
use event.Db.Schema.Other.{from_event, into_event}
use event.Db.Schema.Other.RoundTrip.{into_event-from_event}
use event.Db.Schema.Vector.{CompactPath, CompactPathPart, DecodedPath, decode_path}
use event.Db.Schema.Vector.Compress.{compress_path, decompress_path, path_to_json}
use event.Db.Schema.Vector.RoundTrip.{letter, decode_path-restored}
use event.Db.Schema.PathEvent.{CompactPathEvent, compacted, try_from_event}
use event.Db.Schema.PathEvent.Restore.{into_event as restored}
use event.Db.Schema.PathEvent.Fields.{
  SameFields, HasNoOthers, into_event-SameFields, dash_offset_grows,
}
use event.Tests.Values.{
  Value, Values, tree_path_json, tree_laws, no_paths, string_text, ten_thousandths, hundredths,
}

abbrev plain : (V' : Type 0) → EventSchema ℕ ℕ V'
plain V' = record {
  id = 1;
  origin_x = Origin.left;
  origin_y = Origin.left;
  top = 1000;
  left = 1000;
  height = 1000;
  width = 1000;
  angle = 1000;
  flip_x = false;
  flip_y = false;
  skew_x = 0;
  skew_y = 0;
  scale_x = 10000;
  scale_y = 10000;
  fill = none;
  fill_rule = FillRule.non_zero;
  shadow = none;
  stroke = none;
  opacity = 1;
  visible = false;
  paint_first = PaintFirst.fill;
  global_composite_operation = GlobalCompositeOperation.source_over;
  background_color = none;
  stroke_dash_array = none;
  stroke_dash_offset = 7;
  stroke_line_cap = StrokeLineCap.round;
  stroke_line_join = StrokeLineJoin.round;
  stroke_miter_limit = 1;
  stroke_uniform = none;
  stroke_width = 1;
  cross_origin = none;
  version = "4.4.0";
  kind = Kind.path;
  no_scale_cache = none;
  removed = none;
  rev = none;
  restored = none;
  locked_by_user = none;
  only_state = none;
  invalidate = none;
  order = none;
  no_history = none;
  draw_by_stretch = none;
  path = none;
  src = none;
  crop_x = none;
  crop_y = none;
  filters = none;
  rx = none;
  ry = none;
  radius = none;
  start_angle = none;
  end_angle = none;
  text = none;
  styles = none;
  font_size = none;
  min_width = none;
  overline = none;
  path_side = none;
  direction = none;
  font_style = none;
  text_align = none;
  underline = none;
  font_family = none;
  font_weight = none;
  line_height = none;
  char_spacing = none;
  linethrough = none;
  path_start_offset = none;
  split_by_grapheme = none;
  text_background_color = none;
  x1 = none;
  x2 = none;
  y1 = none;
  y2 = none;
}

abbrev scribble : EventSchema ℕ ℕ String
scribble = record (plain String) { path = some ("one" ∷ "two" ∷ []) }

into_event-from_event_example :
    into_event ⦃j = string_text⦄ (from_event ⦃j = string_text⦄ scribble) ≡ scribble
into_event-from_event_example = into_event-from_event ⦃j = string_text⦄ scribble (refl, (refl, tt))

abbrev point : String → ℕ → ℕ → Value
point label x y = Value.array (
    Values.cons (Value.text label)
      (Values.cons (Value.number x) (Values.cons (Value.number y) Values.nil)))

abbrev stroke : List Value
stroke = point "M" 10000 20000 ∷ point "L" 50000 40000 ∷ []

abbrev stroke_compact : CompactPath ℕ
stroke_compact = record {
  parts = CompactPathPart.part_m 0 0 ∷ CompactPathPart.part_l 10000 10000 ∷ [];
  min_x = 100;
  width = 400;
  min_y = 200;
  height = 200;
}

compress_path_test :
    compress_path ℕ ⦃f = ten_thousandths⦄ ⦃g = hundredths⦄ ⦃j = tree_path_json⦄ stroke
    ≡ some stroke_compact
unfolding compress_path to_u16
compress_path_test = refl

decode_path-restored_example :
    (d d' : DecodedPath ℕ) × (decode_path ⦃f = ten_thousandths⦄ ⦃j = tree_path_json⦄ stroke
      ≡ some d)
    × (decode_path ⦃f = ten_thousandths⦄ ⦃j = tree_path_json⦄ (
          path_to_json ⦃f = ten_thousandths⦄ ⦃j = tree_path_json⦄
            (decompress_path ⦃f = ten_thousandths⦄ ⦃g = hundredths⦄ stroke_compact))
        ≡ some d')
    × (map letter d'.parts ≡ map letter d.parts)
unfolding decompress_path
decode_path-restored_example =
    decode_path-restored (λ x. Unit) ⦃f = ten_thousandths⦄ ⦃g = hundredths⦄ ⦃j = tree_path_json⦄
      ⦃law = tree_laws⦄ stroke stroke_compact compress_path_test ((tt, tt), ((tt, tt), tt))

abbrev drawing : EventSchema ℕ ℕ Value
drawing = record (plain Value) { path = some stroke }

abbrev drawing_compact : CompactPathEvent ℕ ℕ
drawing_compact =
    compacted drawing
      (record {
        top = pos 1000;
        left = pos 1000;
        height = 1000;
        width = 1000;
        angle = 1000;
        skew_x = pos 0;
        skew_y = pos 0;
        stroke_dash_offset = 7;
      })
      stroke_compact

try_from_event_test :
    try_from_event ⦃f = ten_thousandths⦄ ⦃g = hundredths⦄ ⦃j = tree_path_json⦄ drawing
    ≡ ok drawing_compact
unfolding try_from_event f32ti32 f32tu32 f32tu16 f32ti16 f32tu8 compress_path to_u16
try_from_event_test = refl

into_event-SameFields_example :
    SameFields drawing
      (restored ⦃f = ten_thousandths⦄ ⦃g = hundredths⦄ ⦃j = tree_path_json⦄ drawing_compact)
    × HasNoOthers (
        restored {V' = Value} ⦃f = ten_thousandths⦄ ⦃g = hundredths⦄ ⦃j = tree_path_json⦄
          drawing_compact)
into_event-SameFields_example =
    into_event-SameFields ⦃f = ten_thousandths⦄ ⦃g = hundredths⦄ ⦃j = tree_path_json⦄ drawing
      drawing_compact try_from_event_test

dash_offset_grows_example :
    (restored ⦃f = ten_thousandths⦄ ⦃g = hundredths⦄ ⦃j = tree_path_json⦄
      drawing_compact).stroke_dash_offset
    ≡ 700
dash_offset_grows_example =
    dash_offset_grows ⦃f = ten_thousandths⦄ ⦃g = hundredths⦄ ⦃j = tree_path_json⦄ drawing
      drawing_compact 7 refl try_from_event_test

f32ti16_wraps_example : (r : ℤ) × (f32ti16 (whole (pos 36000)) ≡ some r) × (r ≢ pos 36000)
f32ti16_wraps_example = f32ti16_wraps (pos 36000) (inl (ground arith)) (ground arith) (ground arith)

-- Only the one drawing has a JSON form.
abbrev from_value : String → Option (Event ℕ ℕ String)
from_value v = if str_eq v "drawing" then some (other scribble) else none

into_json-from_json_example :
    (c : CompactEvent ℕ ℕ) × (from_json ⦃f = ten_thousandths⦄ ⦃g = hundredths⦄ ⦃j = no_paths⦄
        ⦃t = string_text⦄ from_value "drawing"
      ≡ ok c)
    × (into_json ⦃f = ten_thousandths⦄ ⦃g = hundredths⦄ ⦃j = no_paths⦄ ⦃t = string_text⦄
          (λ e. some "drawing")
          c
        ≡ some "drawing")
into_json-from_json_example =
    into_json-from_json ⦃f = ten_thousandths⦄ ⦃g = hundredths⦄ ⦃j = no_paths⦄ ⦃t = string_text⦄
      from_value (λ e. some "drawing") "drawing" scribble refl refl (refl, (refl, tt))
