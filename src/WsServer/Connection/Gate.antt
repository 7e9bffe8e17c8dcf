-- ===== src/WsServer/Connection/Gate.antt =====
-- bridge/src/ws_server.rs: what a connection without an accepted token can do.
use brp_spec.Base.{String, Bool, true, ◌≡◌, ◌⊎◌, inl, inr, refl, some, [], ◌∷◌}
use brp_spec.Json.{SerdeJson}
use brp_spec.Auth.{ConstantTimeEq, is_valid_origin}
use brp_spec.Message.{Codec}
use brp_spec.RateLimit.{RateLimiter}
use brp_spec.Tokens.{TokenManager, Files}
use brp_spec.Tokens.Validity.{IsAccepted}
use brp_spec.Router.State.{BridgeState}
use brp_spec.WsServer.Admit.{
  text_frame, arrived, Opened, handshake_rejected, dropped, client_rejected, client, extension,
  check_first, provided_token, open_connection,
}
use brp_spec.WsServer.Slots.{
  IsGreeting, released, open_connection-released, open_connection-authenticated,
}
use brp_spec.WsServer.Extension.{quiet}
use brp_spec.WsServer.Connection.{Peer, Trace, auth_failed_text, serve_opened, handle_ws_connection}

module _ {S : Type 0} (J : SerdeJson) (codec : Codec J) (c : ConstantTimeEq) (allow : Bool) where
  open J use {Value}

  -- Nothing has changed, nobody was told anything but, at most, that the authentication failed.
  pub record IsUntouched (s : BridgeState S) (tokens : TokenManager × Files) (t : Trace S Value)
      : Type 0 where
    pub effects : t.effects ≡ quiet s
    pub tokens_kept : t.tokens ≡ tokens
    pub replies : (t.replies ≡ []) ⊎ (t.replies ≡ auth_failed_text J ∷ [])

  -- The Origin is allowed, and the first message arrived in time, passed its tests, registers a client
  -- or an extension and carries a token that is accepted.
  abbrev pub IsAdmitted : Peer S Value → TokenManager → Type 0
  IsAdmitted peer m =
      (is_valid_origin peer.origin ≡ true)
      × ((text : String) × (v : Value) × (peer.first ≡ arrived (text_frame text))
          × (check_first J text ≡ some v)
          × IsGreeting J c v
          × IsAccepted m (provided_token J v))

  serve_opened-cases :
      (become : Opened) (peer : Peer S Value) (l : RateLimiter) (s : BridgeState S)
      (tokens : TokenManager × Files)
      → (open_connection J c peer.origin peer.first tokens.0 l).1 ≡ become
      → IsUntouched s tokens (serve_opened J codec c allow become peer s tokens)
        ⊎ IsAdmitted peer tokens.0
  unfolding serve_opened
  serve_opened-cases handshake_rejected peer l s tokens e =
      inl (record { effects = refl; tokens_kept = refl; replies = inl refl })
  serve_opened-cases dropped peer l s tokens e =
      inl (record { effects = refl; tokens_kept = refl; replies = inl refl })
  serve_opened-cases client_rejected peer l s tokens e =
      inl (record { effects = refl; tokens_kept = refl; replies = inr refl })
  serve_opened-cases client peer l s tokens e =
      inr (open_connection-authenticated J c peer.origin peer.first tokens.0 l (rw e refl))
  serve_opened-cases (extension id) peer l s tokens e =
      inr (open_connection-authenticated J c peer.origin peer.first tokens.0 l (rw e refl))

  -- Over a whole connection: unless its Origin is allowed and its first message arrived in time as
  -- text, passed the size, syntax and depth tests, has the method `register_client` or `register`
  -- and carries an accepted token, the state and the tokens are as before, no waiting request and no
  -- other client hears anything, and the peer is told at most that the authentication failed. In
  -- every case its slot is given back once.
  pub handle_ws_connection-gated :
      (peer : Peer S Value) (l : RateLimiter) (s : BridgeState S) (tokens : TokenManager × Files)
      → let r = handle_ws_connection J codec c allow peer l s tokens in
        (IsUntouched s tokens r.1 ⊎ IsAdmitted peer tokens.0) × (r.0 ≡ released l)
  unfolding handle_ws_connection
  handle_ws_connection-gated peer l s tokens = (
    serve_opened-cases (open_connection J c peer.origin peer.first tokens.0 l).1 peer l s tokens
        refl,
    open_connection-released J c peer.origin peer.first tokens.0 l,
  )
