-- ===== src/SocketLock/Excluded.antt =====
-- bridge/src/ipc_unix.rs: bridges that start while the socket of another can be reached.
use brp_spec.Base.{nat_eq, ◌≡◌, ◌⊎◌}
use brp_spec.SocketLock.{Stage, trying, checking, failed, already_running}

-- Before the connect, or refused because a bridge is running.
abbrev pub IsLate : Stage → Type 0
IsLate stage = (stage ≡ trying) ⊎ ((stage ≡ checking) ⊎ (stage ≡ failed already_running))
