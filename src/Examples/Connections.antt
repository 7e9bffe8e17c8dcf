-- ===== src/Examples/Connections.antt =====
-- Connections at concrete inputs.
use brp_spec.Base.{ℕ, String, ◌≡◌, ◌⊎◌, true, none, List, [], ◌∷◌}
use brp_spec.RateLimit.{RateLimiter}
use brp_spec.WsServer.Admit.{text_frame, close_frame, arrived}
use brp_spec.WsServer.Accept.{
  AcceptEvent, accept_failed, arriving, finishing, listening, run_accept_loop,
}
use brp_spec.WsServer.Accept.Handshakes.{IsCounted, run_accept_loop-IsCounted}
use brp_spec.WsServer.Slots.{released}
use brp_spec.WsServer.Connection.{Peer, handle_ws_connection}
use brp_spec.WsServer.Connection.Gate.{IsUntouched, IsAdmitted, handle_ws_connection-gated}
use brp_spec.Examples.Values.{Value, json, codec, constant_time_eq}
use brp_spec.Examples.Forwarding.{tokens, files, connected_state}

abbrev register_text : String
register_text = "register zen"

-- Three connections arrive while the first two are in their handshakes.
abbrev arrivals : List AcceptEvent
arrivals =
    arriving 5
    ∷ arriving 6
    ∷ accept_failed
    ∷ finishing none (arrived (text_frame register_text)) tokens
    ∷ arriving 7
    ∷ []

run_accept_loop-IsCounted_example :
    let a = run_accept_loop json constant_time_eq arrivals listening in
    IsCounted a × (a.notified ≡ true)
run_accept_loop-IsCounted_example = run_accept_loop-IsCounted json constant_time_eq arrivals

abbrev limiter : RateLimiter
limiter = record { recent_connections = 5 ∷ []; unauthenticated_count = 1 }

-- An extension that registers with the master token and goes.
abbrev zen : Peer ℕ Value
zen = record {
  origin = none;
  first = arrived (text_frame register_text);
  sender = 4;
  frames = (λ s. s, close_frame) ∷ [];
  turns = [];
}

handle_ws_connection-gated_example :
    let r =
      handle_ws_connection json codec constant_time_eq true zen limiter connected_state
        (tokens, files) in
    (IsUntouched json codec constant_time_eq true connected_state (tokens, files) r.1
      ⊎ IsAdmitted json codec constant_time_eq true zen tokens)
    × (r.0 ≡ released limiter)
handle_ws_connection-gated_example =
    handle_ws_connection-gated json codec constant_time_eq true zen limiter connected_state
      (tokens, files)
