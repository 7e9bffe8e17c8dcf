-- ===== src/SocketLock.antt =====
-- bridge/src/ipc_unix.rs: the Unix socket that a bridge holds as a lock. The kernel is an
-- interface; a bridge's listener goes by the number of the bridge.
pub mod Excluded
pub mod Stale
use brp_spec.Base.{
  ℕ, String, Bool, true, false, ◌&&◌, Option, none, some, if◌then◌else◌, nat_eq, ◌==◌, List, [],
  ◌∷◌, ◌≡◌, ◌<>◌,
}
use brp_spec.Base.U32.{show}
use brp_spec.Config.{Host}

unfoldable pub socket_path : Host → ℕ → String
socket_path host uid = elim (host.env_var "XDG_RUNTIME_DIR") [
  | some dir ↦ host.join dir "brp-bridge.sock"
  | none ↦ "/tmp/brp-bridge-" <> (show uid <> ".sock")
]

-- What bind(2) answers: a bound socket, `AddrInUse`, or another error.
pub data BindAnswer : Type 0 where
  bound in_use refused : BindAnswer

-- The path as the kernel keeps it: bind(2) and listen(2), the two calls of `UnixListener::bind`,
-- `connect`, `exists` and `remove_file` at the path, and the drop of a listener.
pub record Sockets : Type 1 where
  pub State : Type 0
  pub bind : ℕ → State → State × BindAnswer
  pub listen : ℕ → State → State × Bool
  pub connects : State → Bool
  pub path_exists : State → Bool
  pub remove_file : State → State × Bool
  pub drop_listener : ℕ → State → State

pub data LockError : Type 0 where
  already_running os_error : LockError

-- Where a bridge stands in `acquire_with_path`: before the first bind, before the connect, before
-- the removal, before the second bind, before the listen that follows either bind, or at the end.
pub data Stage : Type 0 where
  trying checking cleaning rebinding listening holding : Stage
  failed : LockError → Stage

module _ (K : Sockets) where
  open K use {State, bind, listen, connects, path_exists, remove_file, drop_listener}

  abbrev after_rebind : State × BindAnswer → State × Stage
  after_rebind (s, bound) = (s, listening)
  after_rebind (s, _) = (s, failed os_error)

  abbrev after_bind : State × BindAnswer → State × Stage
  after_bind (s, bound) = (s, listening)
  after_bind (s, in_use) = (s, checking)
  after_bind (s, refused) = (s, failed os_error)

  -- On a bound socket listen(2) does not answer `AddrInUse`.
  abbrev after_listen : State × Bool → State × Stage
  after_listen (s, listens) = (s, if listens then holding else failed os_error)

  abbrev after_removal : State × Bool → State × Stage
  after_removal (s, removed) = (s, if removed then rebinding else failed os_error)

  -- One system call of a bridge.
  unfoldable pub acquire_step : ℕ → State → Stage → State × Stage
  acquire_step l s trying = after_bind (bind l s)
  acquire_step l s checking = (s, if connects s then failed already_running else cleaning)
  acquire_step l s cleaning = after_removal (remove_file s)
  acquire_step l s rebinding = after_rebind (bind l s)
  acquire_step l s listening = after_listen (listen l s)
  acquire_step l s stage = (s, stage)

  -- The calls with nobody between them.
  unfoldable pub acquire_with_path : ℕ → State → State × Stage
  unfolding acquire_step
  acquire_with_path l s =
      let (s1, a) = acquire_step l s trying in
      let (s2, b) = acquire_step l s1 a in
      let (s3, c) = acquire_step l s2 b in let (s4, d) = acquire_step l s3 c in acquire_step l s4 d

  -- The flag says whether the lock still has its listener. A removal that fails is only logged.
  unfoldable pub release : ℕ → Bool → State → State
  release l open_listener s =
      let s' = if open_listener then drop_listener l s else s in
      if path_exists s' then (remove_file s').0 else s'

  unfoldable pub is_bridge_running_at : State → Bool
  is_bridge_running_at s = path_exists s && connects s

  -- Bridges by their numbers, each at its stage; one of them makes its next call.
  unfoldable pub schedule : List ℕ → State → (ℕ → Stage) → State × (ℕ → Stage)
  unfolding acquire_step
  schedule [] s stages = (s, stages)
  schedule (l ∷ ls) s stages =
      let r = acquire_step l s (stages l) in schedule ls r.0 (λ i. if i == l then r.1 else stages i)

-- What the kernel documents. A path that exists cannot be bound; a bind makes the path, and no
-- connection can be made before the listen that follows, which succeeds; afterwards one can.
pub record SocketLaws (K : Sockets) : Type 0 where
  pub bind-in_use : (l : ℕ) (s : K.State) → K.path_exists s ≡ true → K.bind l s ≡ (s, in_use)
  pub bind-path_exists :
      (l : ℕ) (s s' : K.State) → K.bind l s ≡ (s', bound) → K.path_exists s' ≡ true
  pub bind-connects : (l : ℕ) (s s' : K.State) → K.bind l s ≡ (s', bound) → K.connects s' ≡ false
  pub listen-bound : (l : ℕ) (s s' : K.State) → K.bind l s ≡ (s', bound) → (K.listen l s').1 ≡ true
  pub listen-connects :
      (l : ℕ) (s s' : K.State) → K.bind l s ≡ (s', bound) → K.connects (K.listen l s').0 ≡ true
  pub path_exists-connects : (s : K.State) → K.connects s ≡ true → K.path_exists s ≡ true
