-- ===== src/Message.antt =====
-- bridge/src/protocol/message.rs: the JSON-RPC 2.0 messages, and their coding by serde.
use brp_spec.Base.{
  ◌≡◌, ℕ, ◌-◌, ◌^◌, ltb, ◌<>◌, String, Bool, false, ◌||◌, Option, none, some, List, [], ◌∷◌,
  string_eq, ◌==◌, if◌then◌else◌, Result, ok, err,
}
use brp_spec.Base.Int.{ℤ, neg}
use brp_spec.Base.U32.{show}
use brp_spec.Json.{SerdeJson}
use brp_spec.Session.{InitializeParams, InitializeResult}

pub data JsonRpcVersion : Type 0 where
  json_rpc_version : JsonRpcVersion

unfoldable pub serialize_version : JsonRpcVersion → String
serialize_version v = "2.0"

unfoldable pub deserialize_version : String → Result JsonRpcVersion String
deserialize_version v = if v == "2.0" then ok json_rpc_version else err "expected \"2.0\""

-- An i64 is its 64-bit pattern.
pub data MessageId : Type 0 where
  number : ℕ → MessageId
  string : String → MessageId

-- `Display`, in base ten, with the sign of an i64.
unfoldable pub display_id : MessageId → String
display_id (number n) = if ltb n (2 ^ 63) then show n else "-" <> show (2 ^ 64 - n)
display_id (string s) = "\"" <> (s <> "\"")

pub record Request (V : Type 0) : Type 0 where
  pub jsonrpc : JsonRpcVersion
  pub id : MessageId
  pub method : String
  pub params : Option V

pub record ErrorResponse (V : Type 0) : Type 0 where
  pub code : ℤ
  pub message : String
  pub error_data : Option V

pub record Response (V : Type 0) : Type 0 where
  pub jsonrpc : JsonRpcVersion
  pub id : MessageId
  pub result : Option V
  pub error : Option (ErrorResponse V)

pub record Notification (V : Type 0) : Type 0 where
  pub jsonrpc : JsonRpcVersion
  pub method : String
  pub params : Option V

module _ {V : Type 0} where
  unfoldable pub success : MessageId → V → Response V
  success id result = record {
    jsonrpc = json_rpc_version;
    id = id;
    result = some result;
    error = none;
  }

  unfoldable pub error : MessageId → ErrorResponse V → Response V
  error id e = record { jsonrpc = json_rpc_version; id = id; result = none; error = some e }

  unfoldable pub new_notification : String → V → Notification V
  new_notification method params = record {
    jsonrpc = json_rpc_version;
    method = method;
    params = some params;
  }

module _ (J : SerdeJson) where
  open J use {Value, text, bool, object}

  -- `json!({"errorCode": .., "category": .., "retriable": .., ..})`
  abbrev pub json_error : String → String → Bool → List (String × Value) → Value
  json_error error_code category retriable more = object (
      ("errorCode", text error_code)
      ∷ ("category", text category)
      ∷ ("retriable", bool retriable)
      ∷ more)

  unfoldable pub internal_error : MessageId → String → Response Value
  unfolding error
  internal_error id msg = error id (record {
    code = neg 32603;
    message = msg;
    error_data = some (json_error "BRP_INTERNAL_ERROR" "INTERNAL" false []);
  })

  -- What serde derives for the message types.
  pub record Codec : Type 0 where
    pub parse_initialize_params : Value → Option InitializeParams
    pub initialize_result : InitializeResult → Value
    pub parse_request : Value → Option (Request Value)
    pub parse_response : Value → Option (Response Value)
    pub message_id : MessageId → Value
    pub response : Response Value → Value
    pub notification : Notification Value → Value

-- What serde documents of a response that is read: a key that was set holds its value, an inserted
-- key leaves the others alone, and the derived reader takes the id from the key `id`.
pub record ResponseLaws (J : SerdeJson) (codec : Codec J) : Type 0 where
  pub get-index_set :
      (v w x : J.Value) (k : String) → J.index_set v k w ≡ some x → J.get x k ≡ some w
  pub get-object_insert :
      (v w : J.Value) (k j : String)
      → (k == j) ≡ false
      → J.get (J.object_insert v k w) j ≡ J.get v j
  pub parse_response-id :
      (v : J.Value) (id : MessageId) (r : Response J.Value)
      → J.get v "id" ≡ some (codec.message_id id)
      → codec.parse_response v ≡ some r
      → r.id ≡ id

unfoldable pub error_category : String → String
error_category code =
    if code == "BRP_MASTER_TOKEN_REQUIRED" || code == "BRP_TOKEN_REVOKE_FAILED"
    then "AUTH"
    else if code == "BRP_METHOD_NOT_FOUND" || code == "BRP_CAPABILITY_NOT_SUPPORTED"
    then "CAPABILITY"
    else if code == "BRP_PERMISSION_DENIED" || code == "BRP_URL_SCHEME_BLOCKED"
    then "PERMISSION"
    else if code == "BRP_EXTENSION_DISCONNECTED"
    then "TARGET"
    else "INTERNAL"
