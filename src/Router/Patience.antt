-- ===== src/Router/Patience.antt =====
-- bridge/src/router.rs: how long a forwarded request waits.
use brp_spec.Base.{ℕ, ◌+◌, ◌*◌, ◌≤◌, ◌<◌, ◌≡◌, some, and_then, arith}
use brp_spec.Json.{SerdeJson}
use brp_spec.Message.{Request}
use brp_spec.Router.Forward.{forwarded_params, timeout_secs}

-- A request waits at least 30 seconds, and more than nine seconds longer than the timeout in
-- milliseconds that its parameters name.
timeout_secs-outlasts :
    (J : SerdeJson) (req : Request J.Value) (ms : ℕ)
    → and_then (J.get (forwarded_params J req) "timeout") J.as_u64 ≡ some ms
    → (30 ≤ timeout_secs J req) × (ms + 9000 < 1000 * timeout_secs J req)
unfolding timeout_secs
timeout_secs-outlasts J req ms e = rw e (omega arith, omega arith)
