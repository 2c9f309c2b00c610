-- ===== src/Db/Schema/PathEvent/Fields.antt =====
-- What a path keeps when it is compacted and restored (`src/db/event/schema.rs`).
use event.Base.{ℕ, pos, ◌≡◌, refl, true, none, some, ok, >>=-eq-ok, arith}
use mathlib.Core.Option.{get_or}
use event.Db.Schema.Records.{EventSchema}
use event.Db.Schema.Float.{Doubles, Singles, whole, f32tu8, f32ti16}
use event.Db.Schema.Vector.{PathJson, CompactPath}
use event.Db.Schema.Vector.Compress.{compress_path}
use event.Db.Schema.PathEvent.Restore.{into_event}
use event.Db.Schema.PathEvent.{
  CompactPathEvent, losing_precision, missing_path, ok_or, Sizes, sizes, compacted, try_from_event,
}

module _ {F32 F64 V' : Type 0} where
  -- The fields that come back as they were.
  pub record SameFields (e r : EventSchema F32 F64 V') : Type 0 where
    pub id : r.id ≡ e.id
    pub origin_x : r.origin_x ≡ e.origin_x
    pub origin_y : r.origin_y ≡ e.origin_y
    pub flip_x : r.flip_x ≡ e.flip_x
    pub flip_y : r.flip_y ≡ e.flip_y
    pub scale_x : r.scale_x ≡ e.scale_x
    pub scale_y : r.scale_y ≡ e.scale_y
    pub fill : r.fill ≡ e.fill
    pub fill_rule : r.fill_rule ≡ e.fill_rule
    pub shadow : r.shadow ≡ e.shadow
    pub stroke : r.stroke ≡ e.stroke
    pub opacity : r.opacity ≡ e.opacity
    pub visible : r.visible ≡ e.visible
    pub paint_first : r.paint_first ≡ e.paint_first
    pub global_composite_operation : r.global_composite_operation ≡ e.global_composite_operation
    pub background_color : r.background_color ≡ e.background_color
    pub stroke_dash_array : r.stroke_dash_array ≡ e.stroke_dash_array
    pub stroke_line_cap : r.stroke_line_cap ≡ e.stroke_line_cap
    pub stroke_line_join : r.stroke_line_join ≡ e.stroke_line_join
    pub stroke_miter_limit : r.stroke_miter_limit ≡ e.stroke_miter_limit
    pub stroke_uniform : r.stroke_uniform ≡ e.stroke_uniform
    pub stroke_width : r.stroke_width ≡ e.stroke_width
    pub version : r.version ≡ e.version
    pub kind : r.kind ≡ e.kind
    pub removed : r.removed ≡ e.removed
    pub rev : r.rev ≡ e.rev
    pub restored : r.restored ≡ e.restored
    pub locked_by_user : r.locked_by_user ≡ e.locked_by_user
    pub only_state : r.only_state ≡ e.only_state
    pub invalidate : r.invalidate ≡ e.invalidate
    pub order : r.order ≡ e.order
    pub no_history : r.no_history ≡ e.no_history
    pub draw_by_stretch : r.draw_by_stretch ≡ e.draw_by_stretch
    pub no_scale_cache : r.no_scale_cache ≡ some (get_or e.no_scale_cache true)

  -- The fields that a compact path does not have.
  pub record HasNoOthers (r : EventSchema F32 F64 V') : Type 0 where
    pub cross_origin : r.cross_origin ≡ none
    pub src : r.src ≡ none
    pub crop_x : r.crop_x ≡ none
    pub crop_y : r.crop_y ≡ none
    pub filters : r.filters ≡ none
    pub rx : r.rx ≡ none
    pub ry : r.ry ≡ none
    pub radius : r.radius ≡ none
    pub start_angle : r.start_angle ≡ none
    pub end_angle : r.end_angle ≡ none
    pub text : r.text ≡ none
    pub styles : r.styles ≡ none
    pub font_size : r.font_size ≡ none
    pub min_width : r.min_width ≡ none
    pub overline : r.overline ≡ none
    pub path_side : r.path_side ≡ none
    pub direction : r.direction ≡ none
    pub font_style : r.font_style ≡ none
    pub text_align : r.text_align ≡ none
    pub underline : r.underline ≡ none
    pub font_family : r.font_family ≡ none
    pub font_weight : r.font_weight ≡ none
    pub line_height : r.line_height ≡ none
    pub char_spacing : r.char_spacing ≡ none
    pub linethrough : r.linethrough ≡ none
    pub path_start_offset : r.path_start_offset ≡ none
    pub split_by_grapheme : r.split_by_grapheme ≡ none
    pub text_background_color : r.text_background_color ≡ none
    pub x1 : r.x1 ≡ none
    pub x2 : r.x2 ≡ none
    pub y1 : r.y1 ≡ none
    pub y2 : r.y2 ≡ none

f32tu8_lem : (n : ℕ) {m : ℕ} → f32tu8 (whole (pos n)) ≡ some m → m ≡ n
unfolding f32tu8
f32tu8_lem n h = ground arith

module _ {F32 F64 V' : Type 0} ⦃f : Doubles F64⦄ ⦃g : Singles F32 F64⦄ ⦃j : PathJson F64 V'⦄ where
  SameFields-compacted :
      (e : EventSchema F32 F64 V') (s : Sizes) (p : CompactPath F32)
      → SameFields e (into_event (compacted e s p))
  unfolding compacted into_event
  SameFields-compacted e s p = record {
    id = refl;
    origin_x = refl;
    origin_y = refl;
    flip_x = refl;
    flip_y = refl;
    scale_x = refl;
    scale_y = refl;
    fill = refl;
    fill_rule = refl;
    shadow = refl;
    stroke = refl;
    opacity = refl;
    visible = refl;
    paint_first = refl;
    global_composite_operation = refl;
    background_color = refl;
    stroke_dash_array = refl;
    stroke_line_cap = refl;
    stroke_line_join = refl;
    stroke_miter_limit = refl;
    stroke_uniform = refl;
    stroke_width = refl;
    version = refl;
    kind = refl;
    removed = refl;
    rev = refl;
    restored = refl;
    locked_by_user = refl;
    only_state = refl;
    invalidate = refl;
    order = refl;
    no_history = refl;
    draw_by_stretch = refl;
    no_scale_cache = refl;
  }

  HasNoOthers-compacted :
      (e : EventSchema F32 F64 V') (s : Sizes) (p : CompactPath F32)
      → HasNoOthers (into_event {V' = V'} (compacted e s p))
  unfolding compacted into_event
  HasNoOthers-compacted e s p = record {
    cross_origin = refl;
    src = refl;
    crop_x = refl;
    crop_y = refl;
    filters = refl;
    rx = refl;
    ry = refl;
    radius = refl;
    start_angle = refl;
    end_angle = refl;
    text = refl;
    styles = refl;
    font_size = refl;
    min_width = refl;
    overline = refl;
    path_side = refl;
    direction = refl;
    font_style = refl;
    text_align = refl;
    underline = refl;
    font_family = refl;
    font_weight = refl;
    line_height = refl;
    char_spacing = refl;
    linethrough = refl;
    path_start_offset = refl;
    split_by_grapheme = refl;
    text_background_color = refl;
    x1 = refl;
    x2 = refl;
    y1 = refl;
    y2 = refl;
  }

  -- A result comes from sizes that could be converted and a path that could be compressed.
  try_from_event_inv :
      (e : EventSchema F32 F64 V') {c : CompactPathEvent F32 F64}
      → try_from_event e ≡ ok c
      → (s : Sizes) × (p : CompactPath F32) × (sizes e ≡ ok s) × (compacted e s p ≡ c)
  unfolding try_from_event
  try_from_event_inv e h =
      let (s, hs, h') = >>=-eq-ok (sizes e) _ h in
      let (json, hj, h'') = >>=-eq-ok (ok_or e.path missing_path) _ h' in
      let (p, hp, hc) = >>=-eq-ok (ok_or (compress_path F64 json) losing_precision) _ h'' in
      (s, p, hs, cc)

  -- A path that is compacted and restored has the fields of a path as they were, but for its sizes,
  -- the JSON of the path, and `no_scale_cache`, which is true where it was missing. The other
  -- fields of a drawing and `cross_origin` are missing, also where they were there.
  pub into_event-SameFields :
      (e : EventSchema F32 F64 V') (c : CompactPathEvent F32 F64)
      → try_from_event e ≡ ok c
      → SameFields e (into_event c) × HasNoOthers (into_event {V' = V'} c)
  into_event-SameFields e c h =
      let (s, p, hs, hc) = try_from_event_inv e h in
      rw (← hc) (SameFields-compacted e s p, HasNoOthers-compacted e s p)

  sizes_inv :
      (e : EventSchema F32 F64 V') {s : Sizes}
      → sizes e ≡ ok s
      → (f32tu8 (g.hundreds e.stroke_dash_offset) ≡ some s.stroke_dash_offset)
        × (f32ti16 (g.hundreds e.skew_x) ≡ some s.skew_x)
  unfolding sizes
  sizes_inv e {s} h = ground arith

  compacted-dash :
      (e : EventSchema F32 F64 V') (s : Sizes) (p : CompactPath F32)
      → (into_event {V' = V'} (compacted e s p)).stroke_dash_offset ≡ g.from_u8 s.stroke_dash_offset
  unfolding compacted into_event
  compacted-dash e s p = refl

  -- The dash offset of a path that can be compacted, if it is `n` hundredths, comes back as `n`
  -- whole units.
  pub dash_offset_grows :
      (e : EventSchema F32 F64 V') (c : CompactPathEvent F32 F64) (n : ℕ)
      → g.hundreds e.stroke_dash_offset ≡ whole (pos n)
      → try_from_event e ≡ ok c
      → (into_event {V' = V'} c).stroke_dash_offset ≡ g.from_u8 n
  dash_offset_grows e c n d h =
      let (s, p, hs, hc) = try_from_event_inv e h in
      let fits = f32tu8_lem n {m = s.stroke_dash_offset} (rw (← d) ((sizes_inv e hs).0)) in
      rw (← hc, compacted-dash e s p, fits) refl
