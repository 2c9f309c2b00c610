-- ===== src/Db/Schema/Records.antt =====
-- `EventSchema` and `CompactEventSchema` of `src/db/event/schema.rs`: the drawing that an event
-- of kind `draw` carries. `F32` and `F64` are the floats, `V` is `serde_json::Value`.
use event.Base.{ℕ, ℤ, Bool, Option, String, List}
use event.Db.{Uuid}
use event.Db.Schema.Enums.{
  FillRule, GlobalCompositeOperation, Origin, PaintFirst, StrokeLineCap, StrokeLineJoin,
  CrossOrigin, Direction, FontStyle, TextAlign, Kind,
}

-- A leading `_` of a field is left out.
pub record EventSchema (F32 F64 V : Type 0) : Type 0 where
  pub id : Uuid
  pub origin_x : Origin
  pub origin_y : Origin
  pub top : F32
  pub left : F32
  pub height : F32
  pub width : F32
  pub angle : F32
  pub flip_x : Bool
  pub flip_y : Bool
  pub skew_x : F32
  pub skew_y : F32
  pub scale_x : F64
  pub scale_y : F64
  pub fill : Option String
  pub fill_rule : FillRule
  pub shadow : Option String
  pub stroke : Option String
  pub opacity : ℕ
  pub visible : Bool
  pub paint_first : PaintFirst
  pub global_composite_operation : GlobalCompositeOperation
  pub background_color : Option String
  pub stroke_dash_array : Option (List F32)
  pub stroke_dash_offset : F32
  pub stroke_line_cap : StrokeLineCap
  pub stroke_line_join : StrokeLineJoin
  pub stroke_miter_limit : ℕ
  pub stroke_uniform : Option Bool
  pub stroke_width : ℕ
  pub cross_origin : Option CrossOrigin
  pub version : String
  pub kind : Kind
  pub no_scale_cache : Option Bool
  pub removed : Option Bool
  pub rev : Option Uuid
  pub restored : Option Bool
  pub locked_by_user : Option Bool
  pub only_state : Option Bool
  pub invalidate : Option Bool
  pub order : Option ℤ
  pub no_history : Option Bool
  pub draw_by_stretch : Option Bool
  pub path : Option (List V)
  pub src : Option String
  pub crop_x : Option F32
  pub crop_y : Option F32
  pub filters : Option String
  pub rx : Option F32
  pub ry : Option F32
  pub radius : Option F32
  pub start_angle : Option F32
  pub end_angle : Option F32
  pub text : Option String
  pub styles : Option String
  pub font_size : Option ℕ
  pub min_width : Option F32
  pub overline : Option Bool
  pub path_side : Option String
  pub direction : Option Direction
  pub font_style : Option FontStyle
  pub text_align : Option TextAlign
  pub underline : Option Bool
  pub font_family : Option String
  pub font_weight : Option String
  pub line_height : Option F32
  pub char_spacing : Option F32
  pub linethrough : Option Bool
  pub path_start_offset : Option F32
  pub split_by_grapheme : Option Bool
  pub text_background_color : Option String
  pub x1 : Option F32
  pub x2 : Option F32
  pub y1 : Option F32
  pub y2 : Option F32

pub record CompactEventSchema (F32 F64 : Type 0) : Type 0 where
  pub id : Uuid
  pub origin_x : Origin
  pub origin_y : Origin
  pub top : F32
  pub left : F32
  pub height : F32
  pub width : F32
  pub angle : F32
  pub flip_x : Bool
  pub flip_y : Bool
  pub skew_x : F32
  pub skew_y : F32
  pub scale_x : F64
  pub scale_y : F64
  pub fill : Option String
  pub fill_rule : FillRule
  pub shadow : Option String
  pub stroke : Option String
  pub opacity : ℕ
  pub visible : Bool
  pub paint_first : PaintFirst
  pub global_composite_operation : GlobalCompositeOperation
  pub background_color : Option String
  pub no_scale_cache : Option Bool
  pub stroke_dash_array : Option (List F32)
  pub stroke_dash_offset : F32
  pub stroke_line_cap : StrokeLineCap
  pub stroke_line_join : StrokeLineJoin
  pub stroke_miter_limit : ℕ
  pub stroke_uniform : Option Bool
  pub stroke_width : ℕ
  pub cross_origin : Option CrossOrigin
  pub version : String
  pub kind : Kind
  pub removed : Option Bool
  pub rev : Option Uuid
  pub restored : Option Bool
  pub locked_by_user : Option Bool
  pub only_state : Option Bool
  pub invalidate : Option Bool
  pub order : Option ℤ
  pub no_history : Option Bool
  pub draw_by_stretch : Option Bool
  pub path : Option (List String)
  pub src : Option String
  pub crop_x : Option F32
  pub crop_y : Option F32
  pub filters : Option String
  pub rx : Option F32
  pub ry : Option F32
  pub radius : Option F32
  pub start_angle : Option F32
  pub end_angle : Option F32
  pub text : Option String
  pub styles : Option String
  pub font_size : Option ℕ
  pub min_width : Option F32
  pub overline : Option Bool
  pub path_side : Option String
  pub direction : Option Direction
  pub font_style : Option FontStyle
  pub text_align : Option TextAlign
  pub underline : Option Bool
  pub font_family : Option String
  pub font_weight : Option String
  pub line_height : Option F32
  pub char_spacing : Option F32
  pub linethrough : Option Bool
  pub path_start_offset : Option F32
  pub split_by_grapheme : Option Bool
  pub text_background_color : Option String
  pub x1 : Option F32
  pub x2 : Option F32
  pub y1 : Option F32
  pub y2 : Option F32
