-- ===== src/WsServer/Accept.antt =====
-- bridge/src/ws_server.rs: `run_accept_loop` with the connections that it has let in, which go
-- through their handshakes beside it.
pub mod Handshakes
use brp_spec.Base.{
  ℕ, zero, suc, String, Bool, true, false, Option, none, some, List, [], ◌∷◌, ◌++◌, Result, ok, err,
}
use brp_spec.Json.{SerdeJson}
use brp_spec.Auth.{ConstantTimeEq}
use brp_spec.RateLimit
use brp_spec.RateLimit.{RateLimiter, check_connection}
use brp_spec.Tokens.{TokenManager}
use brp_spec.WsServer.Admit.{First, Opened, open_connection}

-- What happens next: `accept` fails, or gives a connection at a time, or a connection that was let
-- in comes to the end of its handshake, with its origin and its first message.
pub data AcceptEvent : Type 0 where
  accept_failed : AcceptEvent
  arriving : ℕ → AcceptEvent
  finishing : Option String → First → TokenManager → AcceptEvent

-- The limiter, how many connections are in their handshakes, whether `ws_connected_tx` has fired,
-- and what has become of the other connections, newest first.
pub record Accepting : Type 0 where
  pub limiter : RateLimiter
  pub handshakes : ℕ
  pub notified : Bool
  pub finished : List Opened

unfoldable pub listening : Accepting
unfolding RateLimit.new
listening = record { limiter = RateLimit.new; handshakes = 0; notified = false; finished = [] }

module _ (J : SerdeJson) (c : ConstantTimeEq) where
  -- The signal fires before the limiter is asked.
  unfoldable pub on_arrival : RateLimiter × Result Unit String → Accepting → Accepting
  on_arrival (l, ok _) a = record a { limiter = l; handshakes = suc a.handshakes; notified = true }
  on_arrival (l, err reason) a = record a { limiter = l; notified = true }

  unfoldable pub on_finish : ℕ → Option String → First → TokenManager → Accepting → Accepting
  on_finish zero origin first m a = a
  on_finish (suc n) origin first m a =
      let (l, become) = open_connection J c origin first m a.limiter in
      record a { limiter = l; handshakes = n; finished = become ∷ a.finished }

  unfoldable pub accept_step : AcceptEvent → Accepting → Accepting
  unfolding on_arrival on_finish
  accept_step accept_failed a = a
  accept_step (arriving now) a = on_arrival (check_connection a.limiter now) a
  accept_step (finishing origin first m) a = on_finish a.handshakes origin first m a

  unfoldable pub run_accept_loop : List AcceptEvent → Accepting → Accepting
  unfolding accept_step
  run_accept_loop [] a = a
  run_accept_loop (event ∷ events) a = run_accept_loop events (accept_step event a)
