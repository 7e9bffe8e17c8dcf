-- ===== src/RateLimit.antt =====
-- bridge/src/ratelimit.rs: throttling of connections before the WebSocket upgrade. Instants are
-- nanoseconds; `duration_since` stops at zero.
pub mod Window
use brp_spec.Base.{
  ℕ, suc, ◌+◌, ◌-◌, ◌*◌, String, Bool, List, [], ◌∷◌, ◌++◌, ltb, leb, keep_if, length,
  if◌then◌else◌, Result, ok, err,
}

abbrev pub max_unauthenticated_connections : ℕ
max_unauthenticated_connections = 5

abbrev pub max_connections_per_second : ℕ
max_connections_per_second = 10

abbrev pub one_second : ℕ
one_second = 1000 * 1000 * 1000

pub record RateLimiter : Type 0 where
  pub recent_connections : List ℕ
  pub unauthenticated_count : ℕ

unfoldable pub new : RateLimiter
new = record { recent_connections = []; unauthenticated_count = 0 }

-- The entries of the last second.
abbrev pub prune : ℕ → List ℕ → List ℕ
prune now = keep_if (λ t. ltb (now - t) one_second)

unfoldable pub check_connection : RateLimiter → ℕ → RateLimiter × Result Unit String
check_connection l now =
    let recent = prune now l.recent_connections in
    let pruned = record l { recent_connections = recent } in
    if leb max_connections_per_second (length recent)
    then (pruned, err "Too many connections per second")
    else if leb max_unauthenticated_connections l.unauthenticated_count
    then (pruned, err "Too many unauthenticated connections")
    else (
      record {
        recent_connections = recent ++ now ∷ [];
        unauthenticated_count = l.unauthenticated_count + 1;
      },
      ok tt,
    )

unfoldable pub on_authenticated : RateLimiter → RateLimiter
on_authenticated l = record l { unauthenticated_count = l.unauthenticated_count - 1 }

unfoldable pub on_auth_failed : RateLimiter → RateLimiter
on_auth_failed l = record l { unauthenticated_count = l.unauthenticated_count - 1 }
