-- ===== src/Db/Schema/PathEvent/Restore.antt =====
-- `CompactPathEvent::into_event` of `src/db/event/schema.rs`: the drawing that a compact path is
-- restored to.
use event.Base.{ℤ, pos, none, some}
use event.Db.Schema.Records.{EventSchema}
use event.Db.Schema.Float.{Doubles, Singles}
use event.Db.Schema.Vector.{PathJson}
use event.Db.Schema.Vector.Compress.{decompress_path, two_decimal_places, path_to_json}
use event.Db.Schema.PathEvent.{CompactPathEvent}

-- `two_decimal_places(n as f64 / 100.0) as f32`.
from_hundredths : {F32 : Type 0} (F64 : Type 0) ⦃f : Doubles F64⦄ ⦃g : Singles F32 F64⦄ → ℤ → F32
from_hundredths F64 ⦃f⦄ ⦃g⦄ n =
    g.to_f32 (two_decimal_places (f.div (f.from_int n) (f.from_int (pos 100))))

module _ {F32 F64 V' : Type 0} ⦃f : Doubles F64⦄ ⦃g : Singles F32 F64⦄ ⦃j : PathJson F64 V'⦄ where
  -- The dash offset is not divided by 100.
  unfoldable pub into_event : CompactPathEvent F32 F64 → EventSchema F32 F64 V'
  unfolding from_hundredths
  into_event self = record {
    id = self.id;
    origin_x = self.origin_x;
    origin_y = self.origin_y;
    top = from_hundredths F64 self.top;
    left = from_hundredths F64 self.left;
    height = from_hundredths F64 (pos self.height);
    width = from_hundredths F64 (pos self.width);
    angle = from_hundredths F64 (pos self.angle);
    flip_x = self.flip_x;
    flip_y = self.flip_y;
    skew_x = from_hundredths F64 self.skew_x;
    skew_y = from_hundredths F64 self.skew_y;
    scale_x = self.scale_x;
    scale_y = self.scale_y;
    fill = self.fill;
    fill_rule = self.fill_rule;
    shadow = self.shadow;
    stroke = self.stroke;
    opacity = self.opacity;
    visible = self.visible;
    paint_first = self.paint_first;
    global_composite_operation = self.global_composite_operation;
    background_color = self.background_color;
    stroke_dash_array = self.stroke_dash_array;
    stroke_dash_offset = g.from_u8 self.stroke_dash_offset;
    stroke_line_cap = self.stroke_line_cap;
    stroke_line_join = self.stroke_line_join;
    stroke_miter_limit = self.stroke_miter_limit;
    stroke_uniform = self.stroke_uniform;
    stroke_width = self.stroke_width;
    cross_origin = none;
    version = self.version;
    kind = self.kind;
    no_scale_cache = some self.no_scale_cache;
    removed = self.removed;
    rev = self.rev;
    restored = self.restored;
    locked_by_user = self.locked_by_user;
    only_state = self.only_state;
    invalidate = self.invalidate;
    order = self.order;
    no_history = self.no_history;
    draw_by_stretch = self.draw_by_stretch;
    path = some (path_to_json (decompress_path {F64 = F64} self.path));
    src = none;
    crop_x = none;
    crop_y = none;
    filters = none;
    rx = none;
    ry = none;
    radius = none;
    start_angle = none;
    end_angle = none;
    text = none;
    styles = none;
    font_size = none;
    min_width = none;
    overline = none;
    path_side = none;
    direction = none;
    font_style = none;
    text_align = none;
    underline = none;
    font_family = none;
    font_weight = none;
    line_height = none;
    char_spacing = none;
    linethrough = none;
    path_start_offset = none;
    split_by_grapheme = none;
    text_background_color = none;
    x1 = none;
    x2 = none;
    y1 = none;
    y2 = none;
  }
