-- ===== src/WsServer/Slots.antt =====
-- bridge/src/ws_server.rs: the slot of an unauthenticated connection, and who gets past.
use brp_spec.Base.{
  ℕ, ◌-◌, String, ◌≡◌, ◌⊎◌, inl, inr, refl, ap, sym, ◌∙◌, Bool, true, false, false≢true, Option,
  none, some, arith, Bool-cases, Option-cases,
}
use brp_spec.Json.{SerdeJson}
use brp_spec.Auth.{ConstantTimeEq, is_valid_origin, on_request}
use brp_spec.RateLimit.{RateLimiter, check_connection, on_authenticated, on_auth_failed}
use brp_spec.Tokens.{TokenManager, is_valid_token}
use brp_spec.Tokens.Validity.{IsAccepted, is_valid_token_iff}
use brp_spec.WsServer.Admit.{
  text_frame, close_frame, other_frame, failed_frame, ended, First, arrived, timed_out, Opened,
  client, extension, check_first, peek_first_message, provided_token, dispatch_first, after_peek,
  open_connection, accept_connection, method_is,
}

-- The limiter with one slot given back.
abbrev pub released : RateLimiter → RateLimiter
released l = record l { unauthenticated_count = l.unauthenticated_count - 1 }

module _ (J : SerdeJson) (c : ConstantTimeEq) where
  open J use {Value}

  dispatch-released :
      (v : Value) (m : TokenManager) (l : RateLimiter) → (dispatch_first J c v m l).0 ≡ released l
  unfolding dispatch_first on_authenticated on_auth_failed
  dispatch-released v m l = ground arith

  peeked :
      (first : First) (l : RateLimiter)
      → (peek_first_message J first l ≡ (released l, none))
        ⊎ ((text : String) × (v : Value) × (first ≡ arrived (text_frame text))
            × (check_first J text ≡ some v)
            × (peek_first_message J first l ≡ (l, some v)))
  unfolding peek_first_message on_auth_failed
  peeked (arrived (text_frame text)) l = elim (Option-cases (check_first J text)) [
    | inl e ↦ inl (rw (e, peek_first_message))
    | inr (v, e) ↦ inr (text, v, refl, e, rw (e, peek_first_message))
  ]
  peeked (arrived close_frame) l = inl refl
  peeked (arrived other_frame) l = inl refl
  peeked (arrived failed_frame) l = inl refl
  peeked (arrived ended) l = inl refl
  peeked timed_out l = inl refl

  -- Whatever becomes of a connection, a rejected handshake, silence, a bad first message, a wrong
  -- token or an authenticated client or extension, its slot is given back exactly once.
  pub open_connection-released :
      (origin : Option String) (first : First) (m : TokenManager) (l : RateLimiter)
      → (open_connection J c origin first m l).0 ≡ released l
  unfolding open_connection on_request on_auth_failed after_peek
  open_connection-released origin first m l = elim (Bool-cases (is_valid_origin origin)) [
    | inr bad ↦ rw (bad, open_connection)
    | inl good ↦ elim (peeked first l) [
      | inl e ↦ rw (good, open_connection) (rw e refl)
      | inr (text, v, _, _, e) ↦ rw (good, open_connection) (rw e (dispatch-released v m l))
    ]
  ]

  abbrev pub is_open : Opened → Bool
  is_open client = true
  is_open (extension id) = true
  is_open _ = false

  -- The two methods with which a connection may begin.
  abbrev pub IsGreeting : Value → Type 0
  IsGreeting v = (method_is J v "register_client" ≡ true) ⊎ (method_is J v "register" ≡ true)

  dispatch-IsGreeting :
      (v : Value) (m : TokenManager) (l : RateLimiter)
      → is_open (dispatch_first J c v m l).1 ≡ true
      → IsGreeting v
  unfolding dispatch_first
  dispatch-IsGreeting v m l h = ground arith

  dispatch-open :
      (v : Value) (m : TokenManager) (l : RateLimiter)
      → is_open (dispatch_first J c v m l).1 ≡ true
      → is_valid_token c m (provided_token J v) ≡ true
  unfolding dispatch_first
  dispatch-open v m l h = ground arith

  opened :
      (origin : Option String) (first : First) (m : TokenManager) (l : RateLimiter)
      → is_valid_origin origin ≡ true
      → open_connection J c origin first m l ≡ after_peek J c m (peek_first_message J first l)
  unfolding open_connection on_request
  opened origin first m l good = rw (good, open_connection)

  -- Only a connection with an allowed origin, whose first message arrived in time as text, passed
  -- the size, syntax and depth tests, registers and carries an accepted token, becomes a client or an extension.
  pub open_connection-authenticated :
      (origin : Option String) (first : First) (m : TokenManager) (l : RateLimiter)
      → is_open (open_connection J c origin first m l).1 ≡ true
      → (is_valid_origin origin ≡ true)
        × ((text : String) × (v : Value) × (first ≡ arrived (text_frame text))
            × (check_first J text ≡ some v)
            × IsGreeting v
            × IsAccepted m (provided_token J v))
  unfolding open_connection on_request after_peek
  open_connection-authenticated origin first m l h = elim (Bool-cases (is_valid_origin origin)) [
    | inr bad ↦ absurd (false≢true (rw (bad, open_connection) at h))
    | inl good ↦ elim (peeked first l) [
      | inl e ↦ absurd (
          false≢true (
            sym (ap (λ r. is_open r.1) (opened origin first m l good ∙ ap (after_peek J c m) e))
            ∙ h))
      | inr (text, v, arrival, checked, e) ↦
          let same = opened origin first m l good ∙ ap (after_peek J c m) e in
          let past : is_open (dispatch_first J c v m l).1 ≡ true =
            sym (ap (λ r. is_open r.1) same) ∙ h in
          let accepted =
            (is_valid_token_iff c m (provided_token J v)).0 (dispatch-open v m l past) in
          (good, (text, v, arrival, checked, dispatch-IsGreeting v m l past, accepted))
    ]
  ]

  -- Over a whole round of the accept loop, with its rate check, the count of unauthenticated
  -- connections ends where it began, whether the connection was refused, dropped or let through.
  accept_connection-balanced :
      (now : ℕ) (origin : Option String) (first : First) (m : TokenManager) (l : RateLimiter)
      → (accept_connection J c now origin first m l).0.unauthenticated_count
        ≡ l.unauthenticated_count
  unfolding accept_connection check_connection
  accept_connection-balanced now origin first m l =
      ground (arith, open_connection-released origin first m (check_connection l now).0)
