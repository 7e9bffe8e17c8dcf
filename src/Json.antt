-- ===== src/Json.antt =====
-- The crate `serde_json`, as an interface: the value type, its public constructors as far as the
-- bridge matches on them, and the functions and macros that the bridge calls.
use brp_spec.Base.Int.{ℤ}
use brp_spec.Base.{
  ℕ, String, Bool, ◌≡◌, Option, none, some, List, [], ◌∷◌, string_eq, ◌==◌, or_else, if◌then◌else◌,
}

-- What `match value { Value::Array(..) => .., Value::Object(..) => .., _ => .. }` can see.
pub data Shape (V : Type 0) : Type 0 where
  array : List V → Shape V
  object : List (String × V) → Shape V
  scalar : Shape V

pub record SerdeJson : Type 1 where
  pub Value : Type 0
  pub shape : Value → Shape Value
  -- `v.get(key)`, `as_str`, `as_array`, `as_i64` (as the 64-bit pattern), `as_u64`
  pub get : Value → String → Option Value
  pub as_str : Value → Option String
  pub as_array : Value → Option (List Value)
  pub as_i64 : Value → Option ℕ
  pub as_u64 : Value → Option ℕ
  -- what `json!` builds; `int` takes the 64-bit pattern of an i64, `nat` a u64 or a usize,
  -- `signed` a literal
  pub null : Value
  pub bool : Bool → Value
  pub int : ℕ → Value
  pub nat : ℕ → Value
  pub signed : ℤ → Value
  pub text : String → Value
  pub array : List Value → Value
  pub object : List (String × Value) → Value
  -- `if let Some(obj) = v.as_object_mut() { obj.remove(key); }`, and the same with `insert`
  pub object_remove : Value → String → Value
  pub object_insert : Value → String → Value → Value
  -- `v[key] = w`: `none` where the indexing panics
  pub index_set : Value → String → Value → Option Value
  -- `serde_json::from_str`, `to_string` and `to_string_pretty`
  pub from_str : String → Option Value
  pub to_string : Value → String
  pub to_string_pretty : Value → String

-- The entry of a key where the entries are inserted in order.
abbrev pub find_last {ℓ} : {A : Type ℓ} → String → List (String × A) → Option A
find_last k [] = none
find_last k ((j, v) ∷ fields) = or_else (find_last k fields) (if j == k then some v else none)

-- Documented behaviour of the accessors on what the macro builds.
pub record SerdeLaws (J : SerdeJson) : Type 0 where
  pub get-object :
      (k : String) (fields : List (String × J.Value))
      → J.get (J.object fields) k ≡ find_last k fields
  pub as_array-array : (vs : List J.Value) → J.as_array (J.array vs) ≡ some vs
  pub as_str-text : (s : String) → J.as_str (J.text s) ≡ some s
