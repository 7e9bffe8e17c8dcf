-- ===== src/Main/Bootstrap.antt =====
-- bridge/src/main.rs: the bootstrap mode, which gives the extension the port and the token.
pub mod Delivery
use brp_spec.Base.{
  ℕ, String, Bool, true, false, not, Option, none, some, unwrap_or, if◌then◌else◌, List, [], ◌∷◌,
  Result, ok, err,
}
use brp_spec.Json.{SerdeJson}
use brp_spec.Config.{BridgeConfig}
use brp_spec.Lockfile.{LockData, LockCodec, LockAnswers, Disk, read, acquire, release}

-- How the first wait ends, up to thirty seconds.
pub data Wait : Type 0 where
  ctrl_c connected timeout : Wait

-- How the mode ends.
pub data BootstrapEnd : Type 0 where
  ipc_lock_failed forwarded forward_failed no_bridge_found bind_failed lockfile_failed :
      BootstrapEnd
  send_failed interrupted no_connection ended : BootstrapEnd

-- What the world answers: the platform; whether the IPC lock was acquired; the port of the new
-- listener, if there is one; whether the message is written; the process's own pid; who is alive;
-- the disk at each use of the lockfile, and what other processes do to it while the token is out.
pub record BootstrapWorld : Type 0 where
  pub windows : Bool
  pub ipc_lock : Bool
  pub port : Option ℕ
  pub written : Bool
  pub wait : Wait
  pub pid : ℕ
  pub is_pid_alive : ℕ → Bool
  pub at_read : LockAnswers
  pub at_acquire : LockAnswers
  pub meantime : Disk → Disk
  pub at_release : LockAnswers

-- The disk afterwards, what was written to stdout, and the end.
pub record Outcome (V End : Type 0) : Type 0 where
  pub disk : Disk
  pub out : List V
  pub end : End

-- After the token is out: the two waits. Whatever ends the second, the lockfile goes.
abbrev pub end_of_wait : Wait → BootstrapEnd
end_of_wait ctrl_c = interrupted
end_of_wait connected = ended
end_of_wait timeout = no_connection

module _ (J : SerdeJson) where
  open J use {Value, nat, text, object}

  unfoldable pub token_msg : ℕ → String → Value
  token_msg port token = object (("port", nat port) ∷ ("token", text token) ∷ [])

  abbrev pub sent : Bool → Value → List Value
  sent written message = if written then message ∷ [] else []

module _ (J : SerdeJson) (codec : LockCodec) where
  open J use {Value}

  -- Windows, without the lock: the port and the token of the bridge that runs.
  unfoldable pub forward_existing : BootstrapWorld → Disk → Outcome Value BootstrapEnd
  unfolding token_msg read
  forward_existing world disk = elim (read codec world.at_read disk) [
    | none ↦ record { disk = disk; out = []; end = no_bridge_found }
    | some lock_data ↦
        if world.is_pid_alive lock_data.pid
        then record {
          disk = disk;
          out = sent J world.written (token_msg J lock_data.port (unwrap_or lock_data.token ""));
          end = if world.written then forwarded else forward_failed;
        }
        else record { disk = disk; out = []; end = no_bridge_found }
  ]

  -- With a listener on `port`: the lockfile, the message, the waits.
  unfoldable pub deliver_token :
      BootstrapWorld → BridgeConfig → ℕ → Disk → Outcome Value BootstrapEnd
  unfolding token_msg acquire release
  deliver_token world config port disk =
      let lock_data : LockData = record {
        pid = world.pid;
        port = port;
        token = some config.auth_token;
      } in
      let (disk', r) = acquire codec world.is_pid_alive lock_data world.at_acquire disk in
      elim r [
        | err e ↦ record { disk = disk'; out = []; end = lockfile_failed }
        | ok t ↦ record {
          disk = release world.at_release (world.meantime disk');
          out = sent J world.written (token_msg J port config.auth_token);
          end = if world.written then end_of_wait world.wait else send_failed;
        }
      ]

  unfoldable pub run_bootstrap : BootstrapWorld → BridgeConfig → Disk → Outcome Value BootstrapEnd
  unfolding forward_existing deliver_token
  run_bootstrap world config disk =
      if not world.ipc_lock
      then (if world.windows
          then forward_existing world disk
          else record { disk = disk; out = []; end = ipc_lock_failed })
      else elim world.port [
        | none ↦ record { disk = disk; out = []; end = bind_failed }
        | some port ↦ deliver_token world config port disk
      ]
