-- ===== src/WsServer/Accept/Handshakes.antt =====
-- bridge/src/ws_server.rs: the slots of the limiter and the handshakes under way.
use brp_spec.Base.{
  ℕ, zero, suc, ◌≤◌, String, Bool, true, false, ◌||◌, List, [], ◌∷◌, ◌≡◌, refl, any, arith, Option,
  ap, ◌⊎◌, inl, inr,
}
use brp_spec.Json.{SerdeJson}
use brp_spec.Auth.{ConstantTimeEq}
use brp_spec.RateLimit.{RateLimiter, check_connection, max_unauthenticated_connections}
use brp_spec.Tokens.{TokenManager}
use brp_spec.WsServer.Admit.{First}
use brp_spec.WsServer.Slots.{open_connection-released}
use brp_spec.WsServer.Accept.{
  AcceptEvent, accept_failed, arriving, finishing, Accepting, listening, on_arrival, on_finish,
  accept_step, run_accept_loop,
}

abbrev pub is_arrival : AcceptEvent → Bool
is_arrival (arriving now) = true
is_arrival _ = false

ℕ-cases : (n : ℕ) → (n ≡ 0) ⊎ ((k : ℕ) × (n ≡ suc k))
ℕ-cases zero = inl refl
ℕ-cases (suc k) = inr (k, refl)

-- Every connection in its handshake has one slot of the limiter, and nothing else has.
pub record IsCounted (a : Accepting) : Type 0 where
  pub counted : a.limiter.unauthenticated_count ≡ a.handshakes
  pub few : a.handshakes ≤ max_unauthenticated_connections

module _ (J : SerdeJson) (c : ConstantTimeEq) where
  on_arrival-IsCounted :
      (now : ℕ) (a : Accepting)
      → IsCounted a
      → IsCounted (on_arrival J c (check_connection a.limiter now) a)
  unfolding on_arrival check_connection
  on_arrival-IsCounted now a v = record {
    counted = ground (arith, v.counted);
    few = ground (arith, v.counted, v.few);
  }

  on_finish-IsCounted :
      (n : ℕ) (origin : Option String) (first : First) (m : TokenManager) (a : Accepting)
      → a.handshakes ≡ n
      → IsCounted a
      → IsCounted (on_finish J c n origin first m a)
  unfolding on_finish
  on_finish-IsCounted zero origin first m a e v = v
  on_finish-IsCounted (suc n) origin first m a e v =
      let back =
        ap (λ (l : RateLimiter). l.unauthenticated_count)
          (open_connection-released J c origin first m a.limiter) in
      record { counted = omega (arith, back, v.counted, e); few = omega (arith, v.few, e) }

  accept_step-IsCounted :
      (event : AcceptEvent) (a : Accepting) → IsCounted a → IsCounted (accept_step J c event a)
  unfolding accept_step
  accept_step-IsCounted accept_failed a v = v
  accept_step-IsCounted (arriving now) a v = on_arrival-IsCounted now a v
  accept_step-IsCounted (finishing origin first m) a v =
      on_finish-IsCounted a.handshakes origin first m a refl v

  loop-IsCounted :
      (events : List AcceptEvent) (a : Accepting)
      → IsCounted a
      → IsCounted (run_accept_loop J c events a)
  unfolding run_accept_loop
  loop-IsCounted [] a v = v
  loop-IsCounted (event ∷ events) a v =
      loop-IsCounted events (accept_step J c event a) (accept_step-IsCounted event a v)

  accept_step-notified :
      (event : AcceptEvent) (a : Accepting)
      → (accept_step J c event a).notified ≡ (a.notified || is_arrival event)
  unfolding accept_step on_arrival on_finish
  accept_step-notified accept_failed a = ground arith
  accept_step-notified (arriving now) a = ground arith
  accept_step-notified (finishing origin first m) a = elim (ℕ-cases a.handshakes) [
    | inl e ↦ rw (accept_step, on_finish, e) (ground arith)
    | inr (n, e) ↦ rw (accept_step, on_finish, e) (ground arith)
  ]

  loop-notified :
      (events : List AcceptEvent) (a : Accepting)
      → (run_accept_loop J c events a).notified ≡ (a.notified || any is_arrival events)
  unfolding run_accept_loop
  loop-notified [] a = ground arith
  loop-notified (event ∷ events) a =
      ground (arith, accept_step-notified event a, loop-notified events (accept_step J c event a))

  -- However arrivals, failures and the ends of handshakes are interleaved, the limiter's count is the
  -- number of connections that are in their handshakes, which is at most five: no slot is lost, and
  -- none is given back twice. The signal for the bootstrap mode has fired exactly if a connection
  -- has arrived, let in or not.
  pub run_accept_loop-IsCounted :
      (events : List AcceptEvent)
      → let a = run_accept_loop J c events listening in
        IsCounted a × (a.notified ≡ any is_arrival events)
  unfolding listening
  run_accept_loop-IsCounted events = (
    loop-IsCounted events listening (record { counted = refl; few = omega arith }),
    loop-notified events listening,
  )
