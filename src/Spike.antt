-- ===== src/Spike.antt =====
-- spikes/b1-ipc-spike/src/main.rs: the experiment with IPC between a bridge and a bootstrap: types,
-- helpers and listeners. What the system answers, and the coding by serde, are arguments.
pub mod Discovery
pub mod Bridge
pub mod Bootstrap
pub mod StaleTest
pub mod Clock
pub mod Files
pub mod Started
pub mod Delivery
pub mod Cleanup
pub mod Modes
use brp_spec.Base.{
  ℕ, zero, suc, String, Bool, true, false, not, ◌&&◌, Option, none, some, List, [], ◌∷◌, ◌++◌,
  unwrap_or, keep_if, contains, string_eq, nat_eq, ◌==◌, ◌<>◌, if◌then◌else◌, starts_with, Result,
  ok, err,
}
use brp_spec.Base.U32.{show}
use brp_spec.Config.{Host}
use brp_spec.Lockfile.{ProcessAnswers}

pub data IpcMessage : Type 0 where
  request_token : String → IpcMessage
  token_response : String → IpcMessage

-- `pid` is a u32 and `ws_port` a u16.
pub record LockfileData : Type 0 where
  pub pid : ℕ
  pub ipc_path : String
  pub ws_port : ℕ
  pub started_at : String
  pub instance_id : String

-- serde's coding of the lockfile, as text, and of the messages, as bytes.
pub record SpikeCodec : Type 0 where
  pub to_string_pretty : LockfileData → String
  pub from_str : String → Option LockfileData
  pub to_vec : IpcMessage → List ℕ
  pub from_slice : List ℕ → Option IpcMessage

-- Where the program panics.
pub data Panic : Type 0 where
  listener_failed lockfile_dir_failed lockfile_failed accept_failed : Panic
  read_dir_failed dir_entry_failed : Panic
  no_live_instance connect_failed ipc_write_failed ipc_read_failed connection_closed : Panic
  invalid_response unexpected_response stdout_failed : Panic

unfoldable pub ipc_path : Bool → String → String
ipc_path windows instance_id =
    if windows
    then "\\\\.\\pipe\\brp-bridge-spike-" <> instance_id
    else "/tmp/brp-bridge-spike-" <> (instance_id <> ".sock")

unfoldable pub lockfile_dir : Host → String
lockfile_dir host =
    if host.windows
    then host.join host.temp_dir "brp-spike-instances"
    else "/tmp/brp-spike-instances"

-- The argument is the clock, in seconds since the epoch, before which the code would panic.
unfoldable pub now_iso8601 : ℕ → String
now_iso8601 secs = show secs <> "Z"

-- `s.chars().count()`
abbrev char_count : String → ℕ
char_count String.[] = 0
char_count (String.◌∷◌ c s) = suc (char_count s)

abbrev drop_str : ℕ → String → String
drop_str zero s = s
drop_str (suc n) String.[] = ""
drop_str (suc n) (String.◌∷◌ c s) = drop_str n s

-- `s.trim_start_matches(t)`: each round takes `t` away, so the length of `s` is fuel enough.
trim_rounds : ℕ → String → String → String
trim_rounds zero s t = s
trim_rounds (suc fuel) s t = elim (starts_with s t) [
  | true ↦ trim_rounds fuel (drop_str (char_count t) s) t
  | false ↦ s
]

-- The first argument with the prefix, without it; `none` is the usage text and exit code 1.
unfoldable pub parse_mode_arg : List String → Option String
unfolding trim_rounds
parse_mode_arg [] = none
parse_mode_arg (a ∷ args) =
    let rest = parse_mode_arg args in
    if starts_with a "--mode=" then some (trim_rounds (char_count a) a "--mode=") else rest

-- On Windows: the process can be opened, and its exit code can be read and is 259.
abbrev windows_alive : ProcessAnswers → ℕ → Bool
windows_alive system pid = elim (system.exit_code pid) [
  | none ↦ false
  | some code ↦ elim code [ none ↦ false | some n ↦ n == 259 ]
]

unfoldable pub is_pid_alive : Bool → ProcessAnswers → ℕ → Bool
is_pid_alive windows system pid = if windows then windows_alive system pid else system.kill_zero pid

-- A file of the directory for lockfiles; `none` where it cannot be read.
pub record Entry : Type 0 where
  pub name : String
  pub contents : Option String

-- The directory for lockfiles, if it is there, and the socket files.
pub record SpikeDisk : Type 0 where
  pub lockfile_dir : Option (List Entry)
  pub sockets : List String

-- Whether each call succeeds; `partial` is the lockfile after a failed write. A removal and a
-- listing of a file are asked by its name.
pub record SpikeAnswers : Type 0 where
  pub listener_made : Bool
  pub dir_made : Bool
  pub written : Bool
  pub partial : Option String
  pub removed : String → Bool
  pub opened : Bool
  pub listed : String → Bool

-- `fs::remove_file`, its failure ignored.
abbrev pub remove_socket : SpikeAnswers → String → List String → List String
remove_socket io path sockets =
    if io.removed path then keep_if (λ s. not (s == path)) sockets else sockets

abbrev pub remove_entry : SpikeAnswers → String → List Entry → List Entry
remove_entry io name entries =
    if io.removed name then keep_if (λ e. not (e.name == name)) entries else entries

-- `fs::write`: the file of that name has these contents. Directories are listed in any order.
abbrev pub put_entry : String → String → List Entry → List Entry
put_entry name contents entries =
    keep_if (λ e. not (e.name == name)) entries
    ++ record { name = name; contents = some contents } ∷ []

-- `create_dir_all` and `fs::write` of a lockfile, with what a failed write leaves.
unfoldable pub write_lockfile :
    SpikeAnswers → String → String → SpikeDisk → SpikeDisk × Result Unit Panic
write_lockfile io name contents disk =
    let entries = unwrap_or disk.lockfile_dir [] in
    if io.written
    then (record disk { lockfile_dir = some (put_entry name contents entries) }, ok tt)
    else elim io.partial [
      | none ↦ (record disk { lockfile_dir = some entries }, err lockfile_failed)
      | some part ↦
          (record disk { lockfile_dir = some (put_entry name part entries) }, err lockfile_failed)
    ]

-- On Unix a socket file that is there is removed first, and the bind fails if one is there.
unfoldable pub create_listener :
    Bool → SpikeAnswers → String → SpikeDisk → SpikeDisk × Option String
unfolding ipc_path
create_listener windows io instance_id disk =
    let path = ipc_path windows instance_id in
    if windows
    then (if io.listener_made then (disk, some path) else (disk, none))
    else (let sockets = remove_socket io path disk.sockets in
        if io.listener_made && not (contains sockets path)
        then (record disk { sockets = path ∷ sockets }, some path)
        else (record disk { sockets = sockets }, none))

-- `IpcListener::accept`, with the pipe instances numbered: the server that waits, and the one that
-- is handed out. On Windows the next instance must be made before the connected one is handed out.
unfoldable pub accept : Bool → Bool → Option ℕ → ℕ → ℕ × Option ℕ
accept windows connected next_server server =
    if not connected
    then (server, none)
    else if windows
    then elim next_server [ none ↦ (server, none) | some next ↦ (next, some server) ]
    else (server, some server)
