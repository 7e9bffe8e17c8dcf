-- ===== src/Session/Lifecycle.antt =====
-- bridge/src/protocol/session.rs: histories of calls on a session.
use brp_spec.Base.{
  ℕ, zero, suc, ◌+◌, ◌<◌, ◌^◌, ◌%◌, String, ◌≡◌, ◌⊎◌, inl, inr, refl, true, Option, none, some,
  List, [], ◌∷◌, arith,
}
use brp_spec.Session.{
  Session, InitializeParams, new, initialize, shutdown, exit, next_sequence, is_ready,
  concrete_actions, negotiate_with,
}
use brp_spec.Session.SessionState.{disconnected, ready, closing, closed}
use brp_spec.Session.Negotiation.{Capabilities, bridge_default}
use brp_spec.Session.Grants.{grants, grants-negotiate}

-- The calls that the router and the connection handlers make on the session.
pub data SessionCall : Type 0 where
  initializes : InitializeParams → SessionCall
  shuts_down exits emits : SessionCall

unfoldable pub step : Session → SessionCall → Session
step s (initializes params) = (initialize s params).0
step s shuts_down = shutdown s
step s exits = exit s
step s emits = (next_sequence s).0

unfoldable pub run : Session → List SessionCall → Session
run s [] = s
run s (c ∷ cs) = run (step s c) cs

pub record IsConsistent (s : Session) : Type 0 where
  -- the states that the code ever leaves behind
  pub known :
      (s.state ≡ disconnected) ⊎ ((s.state ≡ ready) ⊎ ((s.state ≡ closing) ⊎ (s.state ≡ closed)))
  -- once ready, the set has exactly the concrete actions
  pub filtered :
      is_ready s ≡ true → s.negotiated_capabilities ≡ concrete_actions s.capabilities.actions
  pub within :
      (m : String) → grants s.capabilities.actions m ≡ true → grants bridge_default.actions m ≡ true

new-IsConsistent : (uuid : String) → IsConsistent (new uuid)
unfolding new is_ready
new-IsConsistent uuid = record { known = inl refl; filtered = λ h. cc; within = λ m h. h }

negotiate_with-within :
    (s : Session) (o : Option Capabilities)
    → IsConsistent s
    → (m : String) → grants (negotiate_with s.capabilities o).actions m ≡ true
    → grants bridge_default.actions m ≡ true
unfolding negotiate_with
negotiate_with-within s none v m h = v.within m h
negotiate_with-within s (some caps) v m h = v.within m (grants-negotiate s.capabilities caps m h)

pub step-IsConsistent : (s : Session) (c : SessionCall) → IsConsistent s → IsConsistent (step s c)
unfolding step initialize shutdown exit next_sequence is_ready
step-IsConsistent s (initializes params) v = record {
  known = inr (inl refl);
  filtered = λ _. refl;
  within = negotiate_with-within s params.capabilities v;
}
step-IsConsistent s shuts_down v = record {
  known = inr (inr (inl refl));
  filtered = λ h. cc;
  within = v.within;
}
step-IsConsistent s exits v = record {
  known = inr (inr (inr refl));
  filtered = λ h. cc;
  within = v.within;
}
step-IsConsistent s emits v = record { known = v.known; filtered = v.filtered; within = v.within }

run-IsConsistent : (s : Session) (cs : List SessionCall) → IsConsistent s → IsConsistent (run s cs)
unfolding run
run-IsConsistent s [] v = v
run-IsConsistent s (c ∷ cs) v = run-IsConsistent (step s c) cs (step-IsConsistent s c v)

pub run-new-IsConsistent :
    (uuid : String) (cs : List SessionCall) → IsConsistent (run (new uuid) cs)
run-new-IsConsistent uuid cs = run-IsConsistent (new uuid) cs (new-IsConsistent uuid)

-- After any history of calls on a new session its state is disconnected, ready, closing or closed:
-- connecting, authenticating and busy are never seen between calls.
pub run-new-state :
    (uuid : String) (cs : List SessionCall)
    → let state = (run (new uuid) cs).state in
      (state ≡ disconnected) ⊎ ((state ≡ ready) ⊎ ((state ≡ closing) ⊎ (state ≡ closed)))
run-new-state uuid cs = (run-new-IsConsistent uuid cs).known

-- The sequence numbers that a history sends out, in order.
unfoldable pub emissions : Session → List SessionCall → List ℕ
emissions s [] = []
emissions s (emits ∷ cs) = (next_sequence s).1 ∷ emissions (step s emits) cs
emissions s (c ∷ cs) = emissions (step s c) cs

abbrev pub emits_in : List SessionCall → ℕ
emits_in [] = 0
emits_in (emits ∷ cs) = suc (emits_in cs)
emits_in (c ∷ cs) = emits_in cs

-- `n` numbers from `k` on.
abbrev pub count_from : ℕ → ℕ → List ℕ
count_from k zero = []
count_from k (suc n) = k ∷ count_from (k + 1) n

emissions-count_from :
    (s : Session) (cs : List SessionCall)
    → s.sequence.current + emits_in cs < 2 ^ 64
    → emissions s cs ≡ count_from (s.sequence.current + 1) (emits_in cs)
unfolding emissions step next_sequence initialize shutdown exit
emissions-count_from s [] h = refl
emissions-count_from s (emits ∷ cs) h =
    let e : (s.sequence.current + 1) % 2 ^ 64 ≡ s.sequence.current + 1 = omega arith in
    cc (e, emissions-count_from (next_sequence s).0 cs (omega (arith, e)))
emissions-count_from s (initializes p ∷ cs) h = emissions-count_from (initialize s p).0 cs h
emissions-count_from s (shuts_down ∷ cs) h = emissions-count_from (shutdown s) cs h
emissions-count_from s (exits ∷ cs) h = emissions-count_from (exit s) cs h

-- Over any history of a new session with fewer than 2^64 notifications, these carry 1, 2, 3 and so
-- on, with no gap and no repeat: neither a new handshake nor a shutdown starts the count again.
emissions-new :
    (uuid : String) (cs : List SessionCall)
    → emits_in cs < 2 ^ 64
    → emissions (new uuid) cs ≡ count_from 1 (emits_in cs)
unfolding new
emissions-new uuid cs h = emissions-count_from (new uuid) cs (omega arith)
