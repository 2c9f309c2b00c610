-- ===== src/Db/Schema/Other.antt =====
-- `CompactEventSchema::from_event` and `into_event` of `src/db/event/schema.rs`: the compact
-- form of all drawings but paths.
pub mod RoundTrip
use event.Base.{Option, some, none, String, List, map, filter_map}
use mathlib.Core.Option
use event.Db.Schema.Records.{EventSchema, CompactEventSchema}
use event.Db.Schema.Vector.{JsonText}

module _ {F32 F64 V' : Type 0} ⦃j : JsonText V'⦄ where
  unfoldable pub from_event : EventSchema F32 F64 V' → CompactEventSchema F32 F64
  from_event e = record {
    id = e.id;
    origin_x = e.origin_x;
    origin_y = e.origin_y;
    top = e.top;
    left = e.left;
    height = e.height;
    width = e.width;
    angle = e.angle;
    flip_x = e.flip_x;
    flip_y = e.flip_y;
    skew_x = e.skew_x;
    skew_y = e.skew_y;
    scale_x = e.scale_x;
    scale_y = e.scale_y;
    fill = e.fill;
    fill_rule = e.fill_rule;
    shadow = e.shadow;
    stroke = e.stroke;
    opacity = e.opacity;
    visible = e.visible;
    paint_first = e.paint_first;
    global_composite_operation = e.global_composite_operation;
    background_color = e.background_color;
    no_scale_cache = e.no_scale_cache;
    stroke_dash_array = e.stroke_dash_array;
    stroke_dash_offset = e.stroke_dash_offset;
    stroke_line_cap = e.stroke_line_cap;
    stroke_line_join = e.stroke_line_join;
    stroke_miter_limit = e.stroke_miter_limit;
    stroke_uniform = e.stroke_uniform;
    stroke_width = e.stroke_width;
    cross_origin = e.cross_origin;
    version = e.version;
    kind = e.kind;
    removed = e.removed;
    rev = e.rev;
    restored = e.restored;
    locked_by_user = e.locked_by_user;
    only_state = e.only_state;
    invalidate = e.invalidate;
    order = e.order;
    no_history = e.no_history;
    draw_by_stretch = e.draw_by_stretch;
    path = Option.map (λ p. map j.to_string p) e.path;
    src = e.src;
    crop_x = e.crop_x;
    crop_y = e.crop_y;
    filters = e.filters;
    rx = e.rx;
    ry = e.ry;
    radius = e.radius;
    start_angle = e.start_angle;
    end_angle = e.end_angle;
    text = e.text;
    styles = e.styles;
    font_size = e.font_size;
    min_width = e.min_width;
    overline = e.overline;
    path_side = e.path_side;
    direction = e.direction;
    font_style = e.font_style;
    text_align = e.text_align;
    underline = e.underline;
    font_family = e.font_family;
    font_weight = e.font_weight;
    line_height = e.line_height;
    char_spacing = e.char_spacing;
    linethrough = e.linethrough;
    path_start_offset = e.path_start_offset;
    split_by_grapheme = e.split_by_grapheme;
    text_background_color = e.text_background_color;
    x1 = e.x1;
    x2 = e.x2;
    y1 = e.y1;
    y2 = e.y2;
  }

  -- `flat_map` drops the parts of the path that are no JSON.
  unfoldable pub into_event : CompactEventSchema F32 F64 → EventSchema F32 F64 V'
  into_event self = record {
    id = self.id;
    origin_x = self.origin_x;
    origin_y = self.origin_y;
    top = self.top;
    left = self.left;
    height = self.height;
    width = self.width;
    angle = self.angle;
    flip_x = self.flip_x;
    flip_y = self.flip_y;
    skew_x = self.skew_x;
    skew_y = self.skew_y;
    scale_x = self.scale_x;
    scale_y = self.scale_y;
    fill = self.fill;
    fill_rule = self.fill_rule;
    shadow = self.shadow;
    stroke = self.stroke;
    opacity = self.opacity;
    visible = self.visible;
    paint_first = self.paint_first;
    global_composite_operation = self.global_composite_operation;
    background_color = self.background_color;
    no_scale_cache = self.no_scale_cache;
    stroke_dash_array = self.stroke_dash_array;
    stroke_dash_offset = self.stroke_dash_offset;
    stroke_line_cap = self.stroke_line_cap;
    stroke_line_join = self.stroke_line_join;
    stroke_miter_limit = self.stroke_miter_limit;
    stroke_uniform = self.stroke_uniform;
    stroke_width = self.stroke_width;
    cross_origin = self.cross_origin;
    version = self.version;
    kind = self.kind;
    removed = self.removed;
    rev = self.rev;
    restored = self.restored;
    locked_by_user = self.locked_by_user;
    only_state = self.only_state;
    invalidate = self.invalidate;
    order = self.order;
    no_history = self.no_history;
    draw_by_stretch = self.draw_by_stretch;
    path = Option.map (λ p. filter_map j.from_str p) self.path;
    src = self.src;
    crop_x = self.crop_x;
    crop_y = self.crop_y;
    filters = self.filters;
    rx = self.rx;
    ry = self.ry;
    radius = self.radius;
    start_angle = self.start_angle;
    end_angle = self.end_angle;
    text = self.text;
    styles = self.styles;
    font_size = self.font_size;
    min_width = self.min_width;
    overline = self.overline;
    path_side = self.path_side;
    direction = self.direction;
    font_style = self.font_style;
    text_align = self.text_align;
    underline = self.underline;
    font_family = self.font_family;
    font_weight = self.font_weight;
    line_height = self.line_height;
    char_spacing = self.char_spacing;
    linethrough = self.linethrough;
    path_start_offset = self.path_start_offset;
    split_by_grapheme = self.split_by_grapheme;
    text_background_color = self.text_background_color;
    x1 = self.x1;
    x2 = self.x2;
    y1 = self.y1;
    y2 = self.y2;
  }
