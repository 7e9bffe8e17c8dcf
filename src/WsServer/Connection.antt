-- ===== src/WsServer/Connection.antt =====
-- bridge/src/ws_server.rs: `handle_ws_connection` as a whole.
pub mod Gate
use brp_spec.Base.{String, Bool, Option, List, [], ◌∷◌}
use brp_spec.Base.Int.{neg}
use brp_spec.Json.{SerdeJson}
use brp_spec.Auth.{ConstantTimeEq}
use brp_spec.Message.{Codec}
use brp_spec.RateLimit.{RateLimiter}
use brp_spec.Tokens.{TokenManager, Files}
use brp_spec.Router.State.{BridgeState}
use brp_spec.WsServer.Admit.{
  Frame, First, Opened, handshake_rejected, dropped, client_rejected, client, extension,
  open_connection,
}
use brp_spec.WsServer.Extension.{Effects, quiet, run_extension}
use brp_spec.WsServer.Client.{Turn, Served, handle_client_messages}

-- What comes over one connection: the Origin, the first frame, then the frames of an extension or
-- the turns of a client; the sender is the handle of its other half.
pub record Peer (S V : Type 0) : Type 0 where
  pub origin : Option String
  pub first : First
  pub sender : S
  pub frames : List ((BridgeState S → BridgeState S) × Frame)
  pub turns : List (Turn S V)

-- What the connection has done: to the state and the tokens, to waiting requests, to the stdout
-- client, and the texts sent back over it, newest first.
pub record Trace (S V : Type 0) : Type 0 where
  pub effects : Effects S V
  pub tokens : TokenManager × Files
  pub replies : List String

module _ (J : SerdeJson) where
  open J use {text, object, to_string}

  unfoldable pub auth_failed_text : String
  auth_failed_text = to_string (
      object (
        (
          "error",
          object (("code", J.signed (neg 32001)) ∷ ("message", text "Authentication failed") ∷ []),
        )
        ∷ []))

module _ {S : Type 0} (J : SerdeJson) (codec : Codec J) (c : ConstantTimeEq) (allow : Bool) where
  open J use {Value}

  -- The message loop of an opened connection, and the cleanup. The close frame after a refusal is
  -- left out.
  unfoldable pub serve_opened :
      Opened → Peer S Value → BridgeState S → TokenManager × Files → Trace S Value
  unfolding auth_failed_text
  serve_opened handshake_rejected peer s tokens = record {
    effects = quiet s;
    tokens = tokens;
    replies = [];
  }
  serve_opened dropped peer s tokens = record { effects = quiet s; tokens = tokens; replies = [] }
  serve_opened client_rejected peer s tokens = record {
    effects = quiet s;
    tokens = tokens;
    replies = auth_failed_text J ∷ [];
  }
  serve_opened client peer s tokens =
      let w =
        handle_client_messages J codec c allow peer.turns
          (record { state = s; tokens = tokens; replies = [] }) in
      record { effects = quiet w.state; tokens = w.tokens; replies = w.replies }
  serve_opened (extension browser_id) peer s tokens = record {
    effects = run_extension J codec browser_id peer.sender peer.frames s;
    tokens = tokens;
    replies = [];
  }

  -- `s` and `tokens` are what the connection finds when its loop begins.
  unfoldable pub handle_ws_connection :
      Peer S Value
      → RateLimiter
      → BridgeState S
      → TokenManager × Files
      → RateLimiter × Trace S Value
  unfolding serve_opened
  handle_ws_connection peer l s tokens =
      let (l', become) = open_connection J c peer.origin peer.first tokens.0 l in
      (l', serve_opened become peer s tokens)
