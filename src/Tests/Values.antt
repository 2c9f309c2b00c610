-- ===== src/Tests/Values.antt =====
-- A small type of JSON values, fixed-point numbers in place of floats, and the interfaces that
-- they fill.
use event.Base.{
  ℕ, ◌+◌, ◌-◌, ◌*◌, ◌/◌, pos, negsuc, Bool, Option, none, some, String, str_eq, str_eq_iff, List,
  [], ◌∷◌, ◌≡◌, refl, ap, ltb, if◌then◌else◌,
}
use event.Base.Json.{Json}
use event.Db.Schema.Float.{Doubles, Singles, whole}
use event.Db.Schema.Vector.{PathJson, PathJsonLaws, JsonText}

mutual
  pub data Value : Type 0 where
    text : String → Value
    flag : Bool → Value
    number : ℕ → Value
    array : Values → Value
    object1 : String → Value → Value

  pub data Values : Type 0 where
    nil : Values
    cons : Value → Values → Values

abbrev to_list : Values → List Value
to_list nil = []
to_list (cons v vs) = v ∷ to_list vs

abbrev from_list : List Value → Values
from_list [] = nil
from_list (v ∷ vs) = cons v (from_list vs)

pub to_list-from_list : (vs : List Value) → to_list (from_list vs) ≡ vs
to_list-from_list [] = refl
to_list-from_list (v ∷ vs) = ap (λ l. v ∷ l) (to_list-from_list vs)

abbrev get : Value → String → Option Value
get (text s) k = none
get (flag b) k = none
get (number n) k = none
get (array vs) k = none
get (object1 k' v) k = if str_eq k' k then some v else none

abbrev as_str : Value → Option String
as_str (text s) = some s
as_str (flag b) = none
as_str (number n) = none
as_str (array vs) = none
as_str (object1 k v) = none

abbrev as_bool : Value → Option Bool
as_bool (text s) = none
as_bool (flag b) = some b
as_bool (number n) = none
as_bool (array vs) = none
as_bool (object1 k v) = none

abbrev as_array : Value → Option (List Value)
as_array (text s) = none
as_array (flag b) = none
as_array (number n) = none
as_array (array vs) = some (to_list vs)
as_array (object1 k v) = none

abbrev as_f64 : Value → Option ℕ
as_f64 (text s) = none
as_f64 (flag b) = none
as_f64 (number n) = some n
as_f64 (array vs) = none
as_f64 (object1 k v) = none

abbrev pub tree_json : Json Value
tree_json = record {
  get = get;
  as_str = as_str;
  as_bool = as_bool;
  text = text;
  object1 = object1;
  as_str-text = λ s. refl;
  get-object1 = λ k v. rw ((str_eq_iff k k).1 refl) refl;
}

abbrev pub tree_path_json : PathJson ℕ Value
tree_path_json = record {
  as_array = as_array;
  as_str = as_str;
  as_f64 = as_f64;
  array = λ l. array (from_list l);
  text = text;
  number = number;
}

abbrev pub tree_laws : PathJsonLaws ℕ Value tree_path_json (λ x. Unit)
tree_laws = record {
  as_array-array = λ l. ap some (to_list-from_list l);
  as_str-text = λ s. refl;
  as_f64-number = λ x h. refl;
}

-- Strings as values, which have no structure here.
abbrev pub no_paths : PathJson ℕ String
no_paths = record {
  as_array = λ s. none;
  as_str = some;
  as_f64 = λ s. none;
  array = λ l. "";
  text = λ s. s;
  number = λ n. "";
}

-- Strings as values, which are their own text form, but for one whose text reads as another.
abbrev pub string_text : JsonText String
string_text = record {
  to_string = λ s. s;
  from_str = λ s. some (if str_eq s "17 digits" then "16 digits" else s);
}

-- Ten-thousandths.
abbrev pub ten_thousandths : Doubles ℕ
ten_thousandths = record {
  ten_thousands = λ x. whole (pos x);
  add = λ x y. x + y;
  sub = λ x y. x - y;
  mul = λ x y. x * y / 10000;
  div = λ x y. x * 10000 / y;
  round = λ x. (x + 5000) / 10000 * 10000;
  lt = ltb;
  from_int = λ z. elim z [ pos n ↦ n * 10000 | negsuc n ↦ 0 ];
  max_value = 1000000000000;
  min_value = 0;
}

-- Hundredths.
abbrev pub hundredths : Singles ℕ ℕ
hundredths = record {
  hundreds = λ x. whole (pos x);
  to_f32 = λ x. x / 100;
  to_f64 = λ x. x * 100;
  from_u8 = λ n. n * 100;
}
