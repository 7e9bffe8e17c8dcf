-- ===== src/Main/Dispatch.antt =====
-- bridge/src/main.rs: `main`, which runs the mode of the command line.
use brp_spec.Base.{ℕ, String, ◌≡◌, ◌⊎◌, Bool, Option, none, List, Result, ok, err}
use brp_spec.Json.{SerdeJson}
use brp_spec.Auth.{ConstantTimeEq}
use brp_spec.Message.{Codec}
use brp_spec.Config.{Host, TokenAnswers, TokenDisk, load}
use brp_spec.Lockfile.{LockCodec, Disk}
use brp_spec.Native.{Utf8}
use brp_spec.Tokens.{Files}
use brp_spec.Mode.{BridgeMode, bridge, bootstrap, echo, Exit, parse_mode}
use brp_spec.Main.Echo.{EchoEnd, run_echo}
use brp_spec.Main.Requests.{Round}
use brp_spec.Main.Bootstrap.{BootstrapWorld, BootstrapEnd, Outcome, run_bootstrap}
use brp_spec.Main.Bridge.{BridgeWorld, BridgeOutcome, initial, run_bridge}

-- What the process meets: the byte order, stdin and the writes to stdout of the echo mode; the
-- environment, fresh UUIDs and the disk's answers for the configuration; and what the other two
-- modes meet.
pub record MainWorld (S V : Type 0) : Type 0 where
  pub little : Bool
  pub input : List ℕ
  pub writes : ℕ → Bool
  pub host : Host
  pub uuid : String
  pub second_uuid : String
  pub session_uuid : String
  pub at_load : TokenAnswers
  pub bootstrap_world : BootstrapWorld
  pub bridge_world : BridgeWorld
  pub tokens_file : Option String
  pub files : Files
  pub rounds : List (Round S V)

-- What ran, with its result.
pub data Ran (V : Type 0) : Type 0 where
  refused : Exit → Ran V
  echoed : Option (List ℕ × EchoEnd) → Ran V
  bootstrapped : Outcome V BootstrapEnd → Ran V
  bridged : BridgeOutcome V → Ran V

-- The token file, the lockfile and what ran.
pub record MainOutcome (V : Type 0) : Type 0 where
  pub token_disk : TokenDisk
  pub disk : Disk
  pub ran : Ran V

abbrev Leaves : {V : Type 0} → Result BridgeMode Exit → TokenDisk → Disk → MainOutcome V → Type 0
Leaves mode token_disk disk after =
    ((after.disk.lockfile ≡ none) ⊎ (after.disk.lockfile ≡ disk.lockfile))
    × ((after.token_disk ≡ token_disk) ⊎ (mode ≡ ok bootstrap) ⊎ (mode ≡ ok bridge))

module _ {S : Type 0} (J : SerdeJson) (utf8 : Utf8) (lock_codec : LockCodec) (codec : Codec J)
    (c : ConstantTimeEq) where
  open J use {Value}

  -- The arms of the match. The configuration is loaded by the bootstrap and the bridge mode.
  unfoldable pub run_mode :
      MainWorld S Value → TokenDisk → Disk → Result BridgeMode Exit → MainOutcome Value
  unfolding load run_echo run_bootstrap run_bridge initial
  run_mode world token_disk disk (err e) = record {
    token_disk = token_disk;
    disk = disk;
    ran = refused e;
  }
  run_mode world token_disk disk (ok echo) = record {
    token_disk = token_disk;
    disk = disk;
    ran = echoed (run_echo J utf8 world.little world.writes world.input);
  }
  run_mode world token_disk disk (ok bootstrap) =
      let loaded = load world.host world.uuid world.second_uuid world.at_load token_disk in
      let r = run_bootstrap J lock_codec world.bootstrap_world loaded.1 disk in
      record { token_disk = loaded.0; disk = r.disk; ran = bootstrapped r }
  run_mode world token_disk disk (ok bridge) =
      let loaded = load world.host world.uuid world.second_uuid world.at_load token_disk in
      let w =
        initial J lock_codec codec c loaded.1 world.session_uuid world.tokens_file world.files in
      let r = run_bridge J lock_codec codec c world.bridge_world loaded.1 w world.rounds disk in
      record { token_disk = loaded.0; disk = r.disk; ran = bridged r }

  unfoldable pub main : List String → MainWorld S Value → TokenDisk → Disk → MainOutcome Value
  unfolding run_mode
  main args world token_disk disk = run_mode world token_disk disk (parse_mode args)
