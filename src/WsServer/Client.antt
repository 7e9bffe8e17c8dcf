-- ===== src/WsServer/Client.antt =====
-- bridge/src/ws_server.rs: the loop over the requests of an authenticated client.
use Prim.Native.String.{len}
use brp_spec.Base.{String, Bool, true, false, none, some, List, [], ◌∷◌, ltb, if◌then◌else◌, ◌<>◌}
use brp_spec.Base.Int.{neg}
use brp_spec.Json.{SerdeJson}
use brp_spec.Auth.{ConstantTimeEq, max_message_size}
use brp_spec.Message.{Codec}
use brp_spec.Tokens.{TokenManager, Files, DiskAnswers}
use brp_spec.Router.State.{BridgeState}
use brp_spec.Router.Forward.{Others}
use brp_spec.Router.Handle.{handle_request}
use brp_spec.WsServer.Admit.{Frame, text_frame, close_frame, other_frame, failed_frame, ended}

-- One turn of the loop: what other tasks have done to the state and the tokens since the last one,
-- the frame, what the world does during the request, whether sending the answer succeeds, the text
-- of serde's refusal of a value that is no request.
pub record Turn (S V : Type 0) : Type 0 where
  pub before_state : BridgeState S → BridgeState S
  pub before_tokens : TokenManager × Files → TokenManager × Files
  pub frame : Frame
  pub uuid : String
  pub io : DiskAnswers
  pub others : Others S V
  pub response_sent : Bool
  pub parse_error : String

-- Where the loop has got to: the state, the tokens and the texts sent to the client.
pub record Served (S : Type 0) : Type 0 where
  pub state : BridgeState S
  pub tokens : TokenManager × Files
  pub replies : List String

module _ (J : SerdeJson) where
  open J use {Value, text, int, bool, object, to_string}

  unfoldable pub too_large_text : String
  too_large_text = to_string (
      object (
        ("jsonrpc", text "2.0")
        ∷ (
          "error",
          object (
              ("code", J.signed (neg 32000))
              ∷ ("message", text "Message too large")
              ∷ (
                "data",
                object
                    (("errorCode", text "BRP_MESSAGE_TOO_LARGE") ∷ ("retriable", bool false) ∷ []),
              )
              ∷ []),
        )
        ∷ []))

  unfoldable pub invalid_text : String → String
  invalid_text e = to_string (
      object (
        ("jsonrpc", text "2.0")
        ∷ (
          "error",
          object
              (("code", J.signed (neg 32600)) ∷ ("message", text ("Invalid request: " <> e)) ∷ []),
        )
        ∷ []))

module _ {S : Type 0} (J : SerdeJson) (codec : Codec J) (c : ConstantTimeEq) (allow : Bool) where
  open J use {Value, from_str, to_string}

  abbrev say : String → Served S → Served S
  say reply w = record w { replies = reply ∷ w.replies }

  -- A text message; the Boolean tells whether the loop goes on. A text that is no JSON is passed
  -- over in silence.
  unfoldable pub serve_text : Turn S Value → String → Served S → Served S × Bool
  unfolding too_large_text invalid_text
  serve_text turn message w =
      if ltb max_message_size (len message)
      then (say (too_large_text J) w, true)
      else elim (from_str message) [
        | none ↦ (w, true)
        | some req_value ↦ elim (codec.parse_request req_value) [
          | none ↦ (say (invalid_text J turn.parse_error) w, true)
          | some req ↦
              let done =
                handle_request J codec c allow turn.uuid turn.io turn.others w.state w.tokens req in
              let w' = record w { state = done.state; tokens = done.tokens } in
              if turn.response_sent
              then (say (to_string (codec.response done.response)) w', true)
              else (w', false)
        ]
      ]

  unfoldable pub serve_frame : Turn S Value → Frame → Served S → Served S × Bool
  unfolding serve_text
  serve_frame turn (text_frame message) w = serve_text turn message w
  serve_frame turn close_frame w = (w, false)
  serve_frame turn other_frame w = (w, true)
  serve_frame turn failed_frame w = (w, false)
  serve_frame turn ended w = (w, false)

  abbrev pub meanwhile : Turn S Value → Served S → Served S
  meanwhile turn w = record w {
    state = turn.before_state w.state;
    tokens = turn.before_tokens w.tokens;
  }

  -- The newest reply comes first.
  unfoldable pub handle_client_messages : List (Turn S Value) → Served S → Served S
  unfolding serve_frame
  handle_client_messages [] w = w
  handle_client_messages (turn ∷ rest) w =
      let (w', on) = serve_frame turn turn.frame (meanwhile turn w) in
      let later = handle_client_messages rest w' in if on then later else w'
