-- ===== src/WsServer/Admit.antt =====
-- bridge/src/ws_server.rs: from the handshake to an authenticated connection.
use Prim.Native.String.{len}
use brp_spec.Base.{
  ℕ, String, Bool, true, false, not, Option, none, some, string_eq, ◌==◌, ltb, if◌then◌else◌, ok,
  err, unwrap_or, and_then,
}
use brp_spec.Json.{SerdeJson}
use brp_spec.Auth.{
  ConstantTimeEq, max_message_size, max_json_depth, validate_json_depth, on_request,
}
use brp_spec.RateLimit.{RateLimiter, check_connection, on_authenticated, on_auth_failed}
use brp_spec.Tokens.{TokenManager, is_valid_token}

-- What `receiver.next()` yields; `ended` is the end of the stream.
pub data Frame : Type 0 where
  text_frame : String → Frame
  close_frame : Frame
  other_frame : Frame
  failed_frame : Frame
  ended : Frame

-- The first frame, or ten seconds without one.
pub data First : Type 0 where
  arrived : Frame → First
  timed_out : First

-- What a connection has become. A refused client is told so before the close.
pub data Opened : Type 0 where
  handshake_rejected dropped client_rejected : Opened
  client : Opened
  extension : String → Opened

module _ (J : SerdeJson) where
  open J use {Value, get, as_str, from_str}

  -- The tests on the text of the first message, in order.
  unfoldable pub check_first : String → Option Value
  check_first text =
      if ltb max_message_size (len text)
      then none
      else and_then (from_str text)
          λ v. if not (validate_json_depth J v max_json_depth) then none else some v

  -- Every refusal gives the connection's slot back.
  unfoldable pub peek_first_message : First → RateLimiter → RateLimiter × Option Value
  unfolding check_first
  peek_first_message (arrived (text_frame text)) l = elim (check_first text) [
    | none ↦ (on_auth_failed l, none)
    | some v ↦ (l, some v)
  ]
  peek_first_message (arrived close_frame) l = (on_auth_failed l, none)
  peek_first_message (arrived other_frame) l = (on_auth_failed l, none)
  peek_first_message (arrived failed_frame) l = (on_auth_failed l, none)
  peek_first_message (arrived ended) l = (on_auth_failed l, none)
  peek_first_message timed_out l = (on_auth_failed l, none)

  -- `msg.get("method").and_then(as_str) == Some(name)`
  unfoldable pub method_is : Value → String → Bool
  method_is msg name = elim (and_then (get msg "method") as_str) [
    | none ↦ false
    | some m ↦ m == name
  ]

  unfoldable pub provided_token : Value → String
  provided_token msg =
      unwrap_or (and_then (get msg "params") λ p. and_then (get p "token") as_str) ""

  unfoldable pub browser_id_of : Value → String
  browser_id_of msg =
      unwrap_or (and_then (get msg "params") λ p. and_then (get p "browserId") as_str) "unknown"

module _ (J : SerdeJson) (c : ConstantTimeEq) where
  open J use {Value}

  unfoldable pub authenticate_client : Value → TokenManager → RateLimiter → RateLimiter × Bool
  authenticate_client msg m l =
      if not (is_valid_token c m (provided_token J msg))
      then (on_auth_failed l, false)
      else (l, true)

  unfoldable pub register_extension_from_msg :
      Value → TokenManager → RateLimiter → RateLimiter × Option String
  register_extension_from_msg msg m l =
      if not (method_is J msg "register")
      then (on_auth_failed l, none)
      else if not (is_valid_token c m (provided_token J msg))
      then (on_auth_failed l, none)
      else (on_authenticated l, some (browser_id_of J msg))

  -- A first message that has passed its tests.
  unfoldable pub dispatch_first : Value → TokenManager → RateLimiter → RateLimiter × Opened
  unfolding authenticate_client register_extension_from_msg
  dispatch_first msg m l =
      if method_is J msg "register_client"
      then (let (l', fine) = authenticate_client msg m l in
          if not fine then (l', client_rejected) else (on_authenticated l', client))
      else (let (l', id) = register_extension_from_msg msg m l in
          elim id [ none ↦ (l', dropped) | some browser_id ↦ (l', extension browser_id) ])

  unfoldable pub after_peek : TokenManager → RateLimiter × Option Value → RateLimiter × Opened
  after_peek m (l, none) = (l, dropped)
  after_peek m (l, some msg) = dispatch_first msg m l

  -- `handle_ws_connection` up to its message loops.
  unfoldable pub open_connection :
      Option String → First → TokenManager → RateLimiter → RateLimiter × Opened
  open_connection origin first m l = elim (on_request origin tt) [
    | err e ↦ (on_auth_failed l, handshake_rejected)
    | ok _ ↦ after_peek m (peek_first_message J first l)
  ]

  -- One round of the accept loop: the limiter, then, if it agrees, the connection.
  unfoldable pub accept_connection :
      ℕ → Option String → First → TokenManager → RateLimiter → RateLimiter × Option Opened
  accept_connection now origin first m l =
      let (l', admitted) = check_connection l now in
      elim admitted [
        | err reason ↦ (l', none)
        | ok _ ↦ let (l'', opened) = open_connection origin first m l' in (l'', some opened)
      ]
