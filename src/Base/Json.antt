-- ===== src/Base/Json.antt =====
-- What the code uses of `serde_json::Value`: reading a field of an object, reading a text or a
-- truth value, and `json!({key: "text"})`.
use Prim.Native.String.{String}
use mathlib.Core.Path.{◌≡◌}
use mathlib.Core.Bool.{Bool}
use mathlib.Core.Option.{Option, some}

pub record Json (V : Type 0) : Type 0 where
  pub get : V → String → Option V
  pub as_str : V → Option String
  pub as_bool : V → Option Bool
  pub text : String → V
  pub object1 : String → V → V
  pub as_str-text : (s : String) → as_str (text s) ≡ some s
  pub get-object1 : (k : String) (v : V) → get (object1 k v) k ≡ some v
