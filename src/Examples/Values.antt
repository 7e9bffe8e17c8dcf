-- ===== src/Examples/Values.antt =====
-- JSON values as a data type, and the interfaces of the crates at concrete functions.
use brp_spec.Base.{
  ℕ, String, ◌≡◌, refl, Bool, not, Option, none, some, List, [], ◌∷◌, ◌++◌, string_eq, ◌==◌, eq_iff,
  keep_if, subst, ==_refl, and_then, arith, false, if◌then◌else◌,
}
use brp_spec.Base.Int.{ℤ}
use brp_spec.Json.{SerdeJson, SerdeLaws, Shape, find_last}
use brp_spec.Auth.{ConstantTimeEq}
use brp_spec.Message.{Codec, MessageId, Response, ResponseLaws, number, string, json_rpc_version}

mutual
  pub data Value : Type 0 where
    null : Value
    boolean : Bool → Value
    num : ℕ → Value
    signed : ℤ → Value
    str : String → Value
    arr : Items → Value
    obj : Fields → Value

  pub data Items : Type 0 where
    no_items : Items
    item : Value → Items → Items

  pub data Fields : Type 0 where
    no_fields : Fields
    field : String → Value → Fields → Fields

abbrev items : List Value → Items
items [] = no_items
items (v ∷ vs) = item v (items vs)

abbrev values : Items → List Value
values no_items = []
values (item v vs) = v ∷ values vs

abbrev fields : List (String × Value) → Fields
fields [] = no_fields
fields ((k, v) ∷ rest) = field k v (fields rest)

abbrev entries : Fields → List (String × Value)
entries no_fields = []
entries (field k v rest) = (k, v) ∷ entries rest

abbrev shape : Value → Shape Value
shape (arr vs) = Shape.array (values vs)
shape (obj fs) = Shape.object (entries fs)
shape _ = Shape.scalar

abbrev get : Value → String → Option Value
get (obj fs) k = find_last k (entries fs)
get _ k = none

abbrev as_str : Value → Option String
as_str (str s) = some s
as_str _ = none

abbrev as_array : Value → Option (List Value)
as_array (arr vs) = some (values vs)
as_array _ = none

abbrev as_num : Value → Option ℕ
as_num (num n) = some n
as_num _ = none

abbrev object_remove : Value → String → Value
object_remove (obj fs) k = obj (fields (keep_if (λ e. not (e.0 == k)) (entries fs)))
object_remove v k = v

abbrev object_insert : Value → String → Value → Value
object_insert (obj fs) k w = obj (fields (entries fs ++ (k, w) ∷ []))
object_insert v k w = v

abbrev index_set : Value → String → Value → Option Value
index_set null k w = some (obj (field k w no_fields))
index_set (obj fs) k w = some (obj (fields (entries fs ++ (k, w) ∷ [])))
index_set v k w = none

abbrev pub register_value : Value
register_value = obj (
    field "method" (str "register") (
      field "params" (obj (field "token" (str "mt_1") (field "browserId" (str "zen") no_fields)))
        no_fields))

abbrev pub tokens_value : Value
tokens_value =
    obj (field "master" (str "mt_1") (field "clients" (arr (item (str "ct_1") no_items)) no_fields))

-- A parser that knows two texts.
abbrev from_str : String → Option Value
from_str s =
    if s == "register zen"
    then some register_value
    else if s == "tokens"
    then some tokens_value
    else none

abbrev pub json : SerdeJson
json = record {
  Value = Value;
  shape = shape;
  get = get;
  as_str = as_str;
  as_array = as_array;
  as_i64 = as_num;
  as_u64 = as_num;
  null = null;
  bool = boolean;
  int = num;
  nat = num;
  signed = signed;
  text = str;
  array = λ vs. arr (items vs);
  object = λ fs. obj (fields fs);
  object_remove = object_remove;
  object_insert = object_insert;
  index_set = index_set;
  from_str = from_str;
  to_string = λ v. "tokens";
  to_string_pretty = λ v. "tokens";
}

values-items : (vs : List Value) → values (items vs) ≡ vs
values-items [] = refl
values-items (v ∷ vs) = cc (values-items vs)

entries-fields : (fs : List (String × Value)) → entries (fields fs) ≡ fs
entries-fields [] = refl
entries-fields ((k, v) ∷ fs) = cc (entries-fields fs)

pub json_laws : SerdeLaws json
json_laws = record {
  get-object = λ k fs. rw (entries-fields fs) refl;
  as_array-array = λ vs. rw (values-items vs) refl;
  as_str-text = λ s. refl;
}

abbrev message_id : MessageId → Value
message_id (number n) = num n
message_id (string s) = str s

abbrev as_id : Value → Option MessageId
as_id (num n) = some (number n)
as_id (str s) = some (string s)
as_id _ = none

-- Responses are read from their id and their result; the other messages are not looked into.
abbrev pub codec : Codec json
codec = record {
  parse_initialize_params = λ v. none;
  initialize_result = λ r. null;
  parse_request = λ v. none;
  parse_response = λ v. and_then (and_then (get v "id") as_id) λ id.
      some (record { jsonrpc = json_rpc_version; id = id; result = get v "result"; error = none });
  message_id = message_id;
  response = λ r. null;
  notification = λ n. null;
}

find_last-append :
    (j k : String) (w : Value) (fs : List (String × Value))
    → find_last j (fs ++ (k, w) ∷ []) ≡ (if k == j then some w else find_last j fs)
find_last-append j k w [] = ground arith
find_last-append j k w ((i, v) ∷ fs) = ground (arith, find_last-append j k w fs)

get-index_set : (v w x : Value) (k : String) → index_set v k w ≡ some x → get x k ≡ some w
get-index_set null w x k h =
    let set : obj (field k w no_fields) ≡ x = cc h in
    subst (λ y. get y k ≡ some w) set (rw (==_refl k) refl)
get-index_set (obj fs) w x k h =
    let after = entries fs ++ (k, w) ∷ [] in
    let set : obj (fields after) ≡ x = cc h in
    subst (λ y. get y k ≡ some w) set
      (rw (entries-fields after, find_last-append k k w (entries fs), ==_refl k) refl)
get-index_set v w x k h = cc

get-object_insert :
    (v w : Value) (k j : String) → (k == j) ≡ false → get (object_insert v k w) j ≡ get v j
get-object_insert (obj fs) w k j h =
    rw (entries-fields (entries fs ++ (k, w) ∷ []), find_last-append j k w (entries fs), h) refl
get-object_insert v w k j h = refl

as_id-message_id : (id : MessageId) → as_id (message_id id) ≡ some id
as_id-message_id (number n) = refl
as_id-message_id (string s) = refl

parse_response-id :
    (v : Value) (id : MessageId) (r : Response Value)
    → get v "id" ≡ some (message_id id)
    → codec.parse_response v ≡ some r
    → r.id ≡ id
parse_response-id v id r h e = ground (arith, rw (h, as_id-message_id id) at e)

pub response_laws : ResponseLaws json codec
response_laws = record {
  get-index_set = get-index_set;
  get-object_insert = get-object_insert;
  parse_response-id = parse_response-id;
}

abbrev pub constant_time_eq : ConstantTimeEq
constant_time_eq = record { ct_eq = λ a b. a == b; ct_eq_iff = λ a b _. eq_iff a b }
