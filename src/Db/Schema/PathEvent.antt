-- ===== src/Db/Schema/PathEvent.antt =====
-- `CompactPathEvent` of `src/db/event/schema.rs`: the compact form of a path, with its sizes in
-- hundredths as integers.
pub mod Restore
pub mod Fields
use event.Base.{ℕ, ℤ, pos, Bool, true, Option, none, some, String, List, Result, ok, err, ◌>>=◌}
use mathlib.Core.Option.{get_or}
use event.Db.{Uuid}
use event.Db.Schema.Enums.{
  FillRule, GlobalCompositeOperation, Origin, PaintFirst, StrokeLineCap, StrokeLineJoin,
  CrossOrigin, Direction, FontStyle, TextAlign, Kind,
}
use event.Db.Schema.Records.{EventSchema}
use event.Db.Schema.Float.{Doubles, Singles, f32tu32, f32tu16, f32tu8, f32ti32, f32ti16}
use event.Db.Schema.Vector.{PathJson, CompactPath}
use event.Db.Schema.Vector.Compress.{compress_path}

-- `Error`.
pub data CompactError : Type 0 where
  losing_precision missing_path : CompactError

-- A leading `_` of a field is left out.
pub record CompactPathEvent (F32 F64 : Type 0) : Type 0 where
  pub id : Uuid
  pub origin_x : Origin
  pub origin_y : Origin
  pub top : ℤ
  pub left : ℤ
  pub height : ℕ
  pub width : ℕ
  pub angle : ℕ
  pub flip_x : Bool
  pub flip_y : Bool
  pub skew_x : ℤ
  pub skew_y : ℤ
  pub scale_x : F64
  pub scale_y : F64
  pub fill : Option String
  pub fill_rule : FillRule
  pub shadow : Option String
  pub stroke : Option String
  pub opacity : ℕ
  pub visible : Bool
  pub paint_first : PaintFirst
  pub global_composite_operation : GlobalCompositeOperation
  pub background_color : Option String
  pub no_scale_cache : Bool
  pub stroke_dash_array : Option (List F32)
  pub stroke_dash_offset : ℕ
  pub stroke_line_cap : StrokeLineCap
  pub stroke_line_join : StrokeLineJoin
  pub stroke_miter_limit : ℕ
  pub stroke_uniform : Option Bool
  pub stroke_width : ℕ
  pub version : String
  pub kind : Kind
  pub path : CompactPath F32
  pub removed : Option Bool
  pub rev : Option Uuid
  pub restored : Option Bool
  pub locked_by_user : Option Bool
  pub only_state : Option Bool
  pub invalidate : Option Bool
  pub order : Option ℤ
  pub no_history : Option Bool
  pub draw_by_stretch : Option Bool

abbrev pub ok_or {ℓ} : {A : Type ℓ} → Option A → CompactError → Result CompactError A
ok_or none e = err e
ok_or (some a) e = ok a

-- The numbers that are converted.
pub record Sizes : Type 0 where
  pub top : ℤ
  pub left : ℤ
  pub height : ℕ
  pub width : ℕ
  pub angle : ℕ
  pub skew_x : ℤ
  pub skew_y : ℤ
  pub stroke_dash_offset : ℕ

module _ {F32 F64 V' : Type 0} where
  -- In the order of the fields of the literal.
  pub sizes : ⦃g : Singles F32 F64⦄ → EventSchema F32 F64 V' → Result CompactError Sizes
  sizes ⦃g⦄ e = ok_or (f32ti32 (g.hundreds e.top)) losing_precision >>= λ top_.
      ok_or (f32ti32 (g.hundreds e.left)) losing_precision >>= λ left_.
      ok_or (f32tu32 (g.hundreds e.height)) losing_precision >>= λ height_.
      ok_or (f32tu32 (g.hundreds e.width)) losing_precision >>= λ width_.
      ok_or (f32tu16 (g.hundreds e.angle)) losing_precision >>= λ angle_.
      ok_or (f32ti16 (g.hundreds e.skew_x)) losing_precision >>= λ skew_x_.
      ok_or (f32ti16 (g.hundreds e.skew_y)) losing_precision >>= λ skew_y_.
      ok_or (f32tu8 (g.hundreds e.stroke_dash_offset)) losing_precision >>= λ stroke_dash_offset_.
      ok (record {
        top = top_;
        left = left_;
        height = height_;
        width = width_;
        angle = angle_;
        skew_x = skew_x_;
        skew_y = skew_y_;
        stroke_dash_offset = stroke_dash_offset_;
      })

  -- The literal.
  pub compacted : EventSchema F32 F64 V' → Sizes → CompactPath F32 → CompactPathEvent F32 F64
  compacted e s path_ = record {
    id = e.id;
    origin_x = e.origin_x;
    origin_y = e.origin_y;
    top = s.top;
    left = s.left;
    height = s.height;
    width = s.width;
    angle = s.angle;
    flip_x = e.flip_x;
    flip_y = e.flip_y;
    skew_x = s.skew_x;
    skew_y = s.skew_y;
    scale_x = e.scale_x;
    scale_y = e.scale_y;
    fill = e.fill;
    fill_rule = e.fill_rule;
    shadow = e.shadow;
    stroke = e.stroke;
    opacity = e.opacity;
    visible = e.visible;
    paint_first = e.paint_first;
    global_composite_operation = e.global_composite_operation;
    background_color = e.background_color;
    no_scale_cache = get_or e.no_scale_cache true;
    stroke_dash_array = e.stroke_dash_array;
    stroke_dash_offset = s.stroke_dash_offset;
    stroke_line_cap = e.stroke_line_cap;
    stroke_line_join = e.stroke_line_join;
    stroke_miter_limit = e.stroke_miter_limit;
    stroke_uniform = e.stroke_uniform;
    stroke_width = e.stroke_width;
    version = e.version;
    kind = e.kind;
    path = path_;
    removed = e.removed;
    rev = e.rev;
    restored = e.restored;
    locked_by_user = e.locked_by_user;
    only_state = e.only_state;
    invalidate = e.invalidate;
    order = e.order;
    no_history = e.no_history;
    draw_by_stretch = e.draw_by_stretch;
  }

module _ {F32 F64 V' : Type 0} ⦃f : Doubles F64⦄ ⦃g : Singles F32 F64⦄ ⦃j : PathJson F64 V'⦄ where
  unfoldable pub try_from_event :
      EventSchema F32 F64 V' → Result CompactError (CompactPathEvent F32 F64)
  unfolding sizes compacted
  try_from_event e = sizes e >>= λ s. ok_or e.path missing_path >>= λ json.
      ok_or (compress_path F64 json) losing_precision >>= λ path_. ok (compacted e s path_)
