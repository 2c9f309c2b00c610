-- ===== src/Db/Schema/Enums.antt =====
-- The enumerations of `src/db/event/schema.rs`.

pub data FillRule : Type 0 where
  non_zero even_odd : FillRule

pub data GlobalCompositeOperation : Type 0 where
  source_over source_in source_out source_atop destination_over destination_in destination_out
        destination_atop lighter copy xor multiply screen overlay darken lighten color_dodge
        color_burn hard_light soft_light difference exclusion hue saturation color luminosity :
      GlobalCompositeOperation

pub data Origin : Type 0 where
  left right top center bottom : Origin

pub data PaintFirst : Type 0 where
  fill stroke : PaintFirst

pub data StrokeLineCap : Type 0 where
  round butt square : StrokeLineCap

pub data StrokeLineJoin : Type 0 where
  round miter bevel : StrokeLineJoin

pub data CrossOrigin : Type 0 where
  anonymous use_credentials : CrossOrigin

pub data Direction : Type 0 where
  ltr rtl : Direction

pub data FontStyle : Type 0 where
  normal italic oblique : FontStyle

pub data TextAlign : Type 0 where
  left center right justify justify_left justify_center justify_right : TextAlign

pub data Kind : Type 0 where
  path image rect circle textbox whiteboard_line triangle whiteboard_arrow_line whiteboard_circle
        active_selection line :
      Kind
