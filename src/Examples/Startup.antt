-- ===== src/Examples/Startup.antt =====
-- The modes of the program at concrete inputs.
use brp_spec.Base.{
  ℕ, String, true, false, none, some, List, [], ◌∷◌, ◌++◌, map, ◌≡◌, ◌≢◌, ◌⊎◌, string_eq, ◌==◌,
  if◌then◌else◌, nat_eq, Option,
}
use brp_spec.Message.{Request, number, json_rpc_version}
use brp_spec.Session.{closed}
use brp_spec.Tokens
use brp_spec.Tokens.{is_valid_token}
use brp_spec.Config.{Host, BridgeConfig, TokenAnswers, TokenDisk, load}
use brp_spec.Config.Load.{load-accepted}
use brp_spec.Lockfile.{LockCodec, LockAnswers, Disk}
use brp_spec.Native.{Utf8}
use brp_spec.Main.Echo.{EchoEnd, run_echo}
use brp_spec.Main.Echo.Ends.{run_echo-returns}
use brp_spec.Main.Requests.{Round, Progress, serve_requests}
use brp_spec.Main.Requests.Answers.{
  AreAnswers, StaysOpen, progress_after, serve_requests-AreAnswers,
}
use brp_spec.Main.Bootstrap.{BootstrapWorld, connected}
use brp_spec.Main.Bridge.{Server, BridgeWorld, port_of}
use brp_spec.Examples.Values.{Value, json, codec, constant_time_eq}
use brp_spec.Examples.Forwarding.{tokens, files, io, connected_state, tab_list, others}

abbrev pub host : Host
host = record {
  windows = false;
  env_var = λ k. if k == "HOME" then some "/home/ada" else none;
  temp_dir = "/tmp";
  join = λ a b. a;
}

abbrev pub token_answers : TokenAnswers
token_answers = record {
  dir_made = true;
  created = true;
  written = true;
  synced = true;
  renamed = true;
  restricted = true;
  partial = "";
}

abbrev pub token_disk : TokenDisk
token_disk = record { token_file = none; tmp_file = none }

abbrev config : BridgeConfig
config = (load host "u1" "u2" token_answers token_disk).1

some_uuid : ◌≢◌ {A = String} "u1" ""
some_uuid = λ h. cc

load-accepted_example :
    let m = Tokens.new json config.master_token none config.auth_token in
    (is_valid_token constant_time_eq m config.auth_token ≡ true)
    × (is_valid_token constant_time_eq m config.master_token ≡ true)
load-accepted_example =
    load-accepted json constant_time_eq host "u1" "u2" token_answers token_disk none some_uuid

abbrev pub lock_codec : LockCodec
lock_codec = record {
  to_vec = λ d. "41 9817";
  from_slice = λ s. some (record { pid = 41; port = 9817; token = some "u1" });
}

abbrev fine : LockAnswers
fine = record {
  readable = true;
  removed = true;
  dir_made = true;
  written = true;
  synced = true;
  renamed = true;
  partial = none;
}

abbrev pub no_files : Disk
no_files = record { lockfile = none; tmp_file = none }

abbrev pub bootstrap_world : BootstrapWorld
bootstrap_world = record {
  windows = false;
  ipc_lock = true;
  port = some 50123;
  written = true;
  wait = connected;
  pid = 41;
  is_pid_alive = λ pid. true;
  at_read = fine;
  at_acquire = fine;
  meantime = λ disk. disk;
  at_release = fine;
}

-- Binding a text ending in a port gives that port, or a random one for port 0.
abbrev bound_to : Option ℕ → Option ℕ
bound_to none = none
bound_to (some p) = some (if p == 0 then 50123 else p)

abbrev bind : String → Option ℕ
bind addr = bound_to (port_of addr)

abbrev pub bridge_world : BridgeWorld
bridge_world = record {
  bind = bind;
  pid = 41;
  is_pid_alive = λ pid. true;
  port_written = true;
  at_acquire = fine;
  meantime = λ disk. disk;
  at_release = fine;
}

-- An address whose port is 0 and which does not end in ":0".
abbrev odd_config : BridgeConfig
odd_config = record config { ws_addr = "127.0.0.1:00" }

-- Three requests, the second of which is `exit`.
abbrev round : Request Value → Round ℕ Value
round request = record {
  request = request;
  uuid = "u";
  io = io;
  others = others;
  before_state = λ s. s;
  before_tokens = λ t. t;
  written = true;
  before_test = λ s. s;
}

abbrev exit_request : Request Value
exit_request = record { jsonrpc = json_rpc_version; id = number 8; method = "exit"; params = none }

abbrev progress : Progress ℕ
progress = record { state = connected_state; tokens = (tokens, files) }

abbrev pub rounds : List (Round ℕ Value)
rounds = round tab_list ∷ round exit_request ∷ round tab_list ∷ []

serve_requests-AreAnswers_example :
    let r = serve_requests json codec constant_time_eq true rounds progress in
    let served = map (λ m. m.0) r.0 in
    AreAnswers json codec constant_time_eq true r.0
    × StaysOpen json codec constant_time_eq true served progress
    × (r.1 ≡ progress_after json codec constant_time_eq true served progress)
    × ((left : List (Round ℕ Value)) × (rounds ≡ served ++ left)
        × ((left ≡ []) ⊎ (r.1.state.session.state ≡ closed)))
serve_requests-AreAnswers_example =
    serve_requests-AreAnswers json codec constant_time_eq true rounds progress

-- An encoding for one text.
abbrev pub utf8 : Utf8
utf8 = record {
  as_bytes = λ s. 116 ∷ 111 ∷ 107 ∷ 101 ∷ 110 ∷ 115 ∷ [];
  from_utf8 = λ bytes. some "tokens";
}

run_echo-returns_example :
    (r : List ℕ × EchoEnd) × (run_echo json utf8 false (λ i. true) (0 ∷ 0 ∷ 0 ∷ 1 ∷ 116 ∷ 9 ∷ [])
      ≡ some r)
run_echo-returns_example =
    run_echo-returns json utf8 false (λ i. true) (0 ∷ 0 ∷ 0 ∷ 1 ∷ 116 ∷ 9 ∷ [])

-- A bridge on its fixed port, and a bootstrap that finds it.
abbrev held_disk : Disk
held_disk = record { lockfile = some "41 9817"; tmp_file = none }

abbrev server : Server Value
server = record { advertised = 9817; listening = some 9817; announced = [] }

abbrev second_world : BootstrapWorld
second_world = record bootstrap_world { windows = true; ipc_lock = false; pid = 52 }
