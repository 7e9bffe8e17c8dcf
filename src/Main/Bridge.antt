-- ===== src/Main/Bridge.antt =====
-- bridge/src/main.rs: the bridge mode, with the start of the server (`run_ws_server`,
-- bridge/src/ws_server.rs).
pub mod Port
use brp_spec.Base.{
  ℕ, String, Bool, true, false, not, Option, none, some, and_then, unwrap_or, if◌then◌else◌, List,
  [], ◌∷◌, ltb, Result, ok, err, ends_with, split,
}
use brp_spec.Base.U32.{parse_u32}
use brp_spec.Json.{SerdeJson}
use brp_spec.Auth.{ConstantTimeEq}
use brp_spec.Message.{Codec}
use brp_spec.Config.{BridgeConfig}
use brp_spec.Lockfile.{LockData, LockCodec, LockAnswers, Disk, acquire, release}
use brp_spec.Tokens
use brp_spec.Tokens.{TokenManager, Files}
use brp_spec.Router.State
use brp_spec.Main.Bootstrap.{token_msg, sent}
use brp_spec.Main.Requests.{Round, Progress, serve_requests, messages_written}

-- How the mode ends.
pub data BridgeEnd : Type 0 where
  bind_failed another_running standalone_done requests_done : BridgeEnd

-- What the world answers: the port on which a listener bound to an address text listens, if the
-- address can be bound (`TcpListener::bind`, `local_addr`); the process's own pid; who is alive; whether the port is written to stdout;
-- the disk at each use of the lockfile, and what other processes do to it meanwhile. The IPC lock
-- decides nothing here.
pub record BridgeWorld : Type 0 where
  pub bind : String → Option ℕ
  pub pid : ℕ
  pub is_pid_alive : ℕ → Bool
  pub port_written : Bool
  pub at_acquire : LockAnswers
  pub meantime : Disk → Disk
  pub at_release : LockAnswers

-- A server that has been started: the port in the lockfile, the port on which it listens if it
-- does, and what was written to stdout for that.
pub record Server (V : Type 0) : Type 0 where
  pub advertised : ℕ
  pub listening : Option ℕ
  pub announced : List V

-- `config.ws_addr.rsplit(':').next()`
abbrev last_part : List String → String
last_part [] = ""
last_part (p ∷ []) = p
last_part (p ∷ q ∷ ps) = last_part (q ∷ ps)

-- What stands behind the last colon, as a port. A u16 parses as a u32 below its limit.
unfoldable pub port_of : String → Option ℕ
port_of ws_addr =
    and_then (parse_u32 (last_part (split b':' ws_addr))) λ n. if ltb n 65536 then some n else none

unfoldable pub fixed_port : String → ℕ
unfolding port_of
fixed_port ws_addr = unwrap_or (port_of ws_addr) 9817

-- The port on which the server listens, if it can bind the text of the address; a failure is only
-- logged. The accept loop behind it is `run_accept_loop`.
unfoldable pub run_ws_server : (String → Option ℕ) → String → Option ℕ
run_ws_server bind addr = bind addr

module _ (J : SerdeJson) (lock_codec : LockCodec) where
  open J use {Value, text, object}

  unfoldable pub own_lock : BridgeWorld → BridgeConfig → ℕ → LockData
  own_lock world config port = record {
    pid = world.pid;
    port = port;
    token = some config.auth_token;
  }

  -- The lockfile, then the server.
  unfoldable pub start_server :
      BridgeWorld → BridgeConfig → Server Value → Disk → Disk × Result (Server Value) BridgeEnd
  unfolding own_lock acquire
  start_server world config server disk =
      let (disk', r) =
        acquire lock_codec world.is_pid_alive (own_lock world config server.advertised)
          world.at_acquire disk in
      elim r [ err e ↦ (disk', err another_running) | ok t ↦ (disk', ok server) ]

  -- On a random port, which is also written to stdout; on the port of the address.
  unfoldable pub random_server : BridgeWorld → BridgeConfig → ℕ → Server Value
  unfolding token_msg
  random_server world config port = record {
    advertised = port;
    listening = some port;
    announced = sent J world.port_written (token_msg J port config.auth_token);
  }

  unfoldable pub fixed_server : BridgeWorld → BridgeConfig → Server Value
  unfolding fixed_port run_ws_server
  fixed_server world config = record {
    advertised = fixed_port config.ws_addr;
    listening = run_ws_server world.bind config.ws_addr;
    announced = [];
  }

  unfoldable pub start : BridgeWorld → BridgeConfig → Disk → Disk × Result (Server Value) BridgeEnd
  unfolding start_server random_server fixed_server
  start world config disk =
      if ends_with config.ws_addr ":0"
      then elim (world.bind config.ws_addr) [
        | none ↦ (disk, err bind_failed)
        | some port ↦ start_server world config (random_server world config port) disk
      ]
      else start_server world config (fixed_server world config) disk

  -- The notification that tells the extension its token.
  unfoldable pub token_notification : BridgeConfig → Value
  token_notification config = object (
      ("jsonrpc", text "2.0")
      ∷ ("method", text "notification/bridge.authToken")
      ∷ (
        "params",
        object (
            ("token", text config.auth_token)
            ∷ ("tokenFile", text config.token_file_path)
            ∷ (
              "message",
              text "Configure this token in the Extension Options page for authentication",
            )
            ∷ []),
      )
      ∷ [])

-- The disk afterwards, the end, and what goes to stdout: the port, the notification for its writer
-- task, and the responses.
pub record BridgeOutcome (V : Type 0) : Type 0 where
  pub disk : Disk
  pub end : BridgeEnd
  pub announced : List V
  pub notified : List V
  pub responses : List V

module _ {S : Type 0} (J : SerdeJson) (lock_codec : LockCodec) (codec : Codec J)
    (c : ConstantTimeEq) where
  open J use {Value}

  -- The state and the tokens when the mode starts.
  unfoldable pub initial : BridgeConfig → String → Option String → Files → Progress S
  unfolding State.new Tokens.new
  initial config uuid content files = record {
    state = State.new uuid;
    tokens = (Tokens.new J config.master_token content config.auth_token, files);
  }

  unfoldable pub run_bridge :
      BridgeWorld → BridgeConfig → Progress S → List (Round S Value) → Disk → BridgeOutcome Value
  unfolding start token_notification serve_requests messages_written release
  run_bridge world config w rounds disk =
      let (disk', r) = start J lock_codec world config disk in
      elim r [
        | err e ↦ record { disk = disk'; end = e; announced = []; notified = []; responses = [] }
        | ok server ↦
            let left = release world.at_release (world.meantime disk') in
            if config.standalone
            then record {
              disk = left;
              end = standalone_done;
              announced = server.announced;
              notified = [];
              responses = [];
            }
            else record {
              disk = left;
              end = requests_done;
              announced = server.announced;
              notified = token_notification J lock_codec config ∷ [];
              responses =
                  messages_written
                    (serve_requests J codec c config.allow_script_execute rounds w).0;
            }
      ]
