-- ===== src/Spike/Bridge.antt =====
-- spikes/b1-ipc-spike/src/main.rs: run_bridge.
use brp_spec.Base.{
  ℕ, zero, suc, String, Bool, not, Option, none, some, List, [], ◌∷◌, ◌<>◌, is_empty, if◌then◌else◌,
  Result, ok, err,
}
use brp_spec.Base.U32.{show}
use brp_spec.Spike.{
  request_token, token_response, LockfileData, SpikeCodec, SpikeAnswers, SpikeDisk, Panic,
  listener_failed, lockfile_dir_failed, accept_failed, now_iso8601, create_listener, write_lockfile,
  remove_socket, remove_entry,
}

-- The process and its clock: the fresh instance id, the pid, and the seconds since the epoch.
pub record Starting : Type 0 where
  pub instance_id : String
  pub pid : ℕ
  pub secs : ℕ

pub record Running : Type 0 where
  pub ipc_path : String
  pub lockfile : String

abbrev pub lockfile_name : ℕ → String
lockfile_name pid = show pid <> ".json"

unfoldable pub own_data : Starting → String → LockfileData
unfolding now_iso8601
own_data me path = record {
  pid = me.pid;
  ipc_path = path;
  ws_port = 9817;
  started_at = now_iso8601 me.secs;
  instance_id = me.instance_id;
}

-- After the listener has been made, or not: the lockfile.
unfoldable pub announce :
    SpikeCodec
    → SpikeAnswers
    → Starting
    → SpikeDisk × Option String
    → SpikeDisk × Result Running Panic
unfolding write_lockfile own_data
announce codec io me (disk, none) = (disk, err listener_failed)
announce codec io me (disk, some path) =
    if not io.dir_made
    then (disk, err lockfile_dir_failed)
    else (let contents = codec.to_string_pretty (own_data me path) in
        let r = write_lockfile io (lockfile_name me.pid) contents disk in
        let running : Running = record { ipc_path = path; lockfile = lockfile_name me.pid } in
        (r.0, elim r.1 [ ok t ↦ ok running | err p ↦ err p ]))

unfoldable pub start_bridge :
    SpikeCodec → Bool → SpikeAnswers → Starting → SpikeDisk → SpikeDisk × Result Running Panic
unfolding create_listener announce
start_bridge codec windows io me disk =
    announce codec io me (create_listener windows io me.instance_id disk)

-- The handler of Ctrl+C, before it exits.
unfoldable pub clean_up : Bool → SpikeAnswers → Running → SpikeDisk → SpikeDisk
clean_up windows io running disk = record {
  lockfile_dir = elim disk.lockfile_dir [
    | none ↦ none
    | some entries ↦ some (remove_entry io running.lockfile entries)
  ];
  sockets = if windows then disk.sockets else remove_socket io running.ipc_path disk.sockets;
}

abbrev pub buffer_size : ℕ
buffer_size = 8192

abbrev pub take {ℓ} : {A : Type ℓ} → ℕ → List A → List A
take zero xs = []
take (suc n) [] = []
take (suc n) (x ∷ xs) = x ∷ take n xs

-- What the task of a connection ends with; a panic ends the task alone.
pub data Served : Type 0 where
  silent : Served
  answered : List ℕ → Served
  task_panicked : Panic → Served

-- The bytes that have arrived when the task reads once, or a failure of the read; a fresh UUID; and
-- whether the answer can be written. Whatever browser id is asked for, a token is handed out.
unfoldable pub serve_connection : SpikeCodec → Option (List ℕ) → String → Bool → Served
serve_connection codec none uuid written = task_panicked Panic.ipc_read_failed
serve_connection codec (some bytes) uuid written =
    let buf = take buffer_size bytes in
    if is_empty buf then silent else elim (codec.from_slice buf) [
      | none ↦ silent
      | some message ↦ elim message [
        | request_token browser_id ↦
            if written
            then answered (codec.to_vec (token_response uuid))
            else task_panicked Panic.ipc_write_failed
        | token_response token ↦ silent
      ]
    ]

-- What happens to the bridge: a connection with what its task meets, an accept that fails, Ctrl+C.
pub data BridgeEvent : Type 0 where
  connected : Option (List ℕ) → String → Bool → BridgeEvent
  not_accepted : BridgeEvent
  interrupted : BridgeEvent

pub data BridgeEnd : Type 0 where
  panicked : Panic → BridgeEnd
  exited waiting : BridgeEnd

-- The accept loop, with what the tasks of the connections end with.
unfoldable pub accept_loop : SpikeCodec → List BridgeEvent → List Served × BridgeEnd
unfolding serve_connection
accept_loop codec [] = ([], waiting)
accept_loop codec (connected received uuid written ∷ events) =
    let rest = accept_loop codec events in
    (serve_connection codec received uuid written ∷ rest.0, rest.1)
accept_loop codec (not_accepted ∷ events) = ([], panicked accept_failed)
accept_loop codec (interrupted ∷ events) = ([], exited)

pub record BridgeOutcome : Type 0 where
  pub disk : SpikeDisk
  pub served : List Served
  pub end : BridgeEnd

-- Only Ctrl+C cleans up.
unfoldable pub at_exit : Bool → SpikeAnswers → Running → BridgeEnd → SpikeDisk → SpikeDisk
unfolding clean_up
at_exit windows at_end running exited disk = clean_up windows at_end running disk
at_exit windows at_end running waiting disk = disk
at_exit windows at_end running (panicked p) disk = disk

-- After the start. `meantime` is what other processes do to the disk while the bridge runs; `at_end`
-- are the answers to the removals at the end.
unfoldable pub after_start :
    SpikeCodec
    → Bool
    → SpikeAnswers
    → (SpikeDisk → SpikeDisk)
    → List BridgeEvent
    → SpikeDisk × Result Running Panic
    → BridgeOutcome
unfolding accept_loop at_exit
after_start codec windows at_end meantime events (disk, err p) = record {
  disk = disk;
  served = [];
  end = panicked p;
}
after_start codec windows at_end meantime events (disk, ok running) =
    let r = accept_loop codec events in
    record { disk = at_exit windows at_end running r.1 (meantime disk); served = r.0; end = r.1 }

unfoldable pub run_bridge :
    SpikeCodec
    → Bool
    → SpikeAnswers
    → SpikeAnswers
    → Starting
    → (SpikeDisk → SpikeDisk)
    → List BridgeEvent
    → SpikeDisk
    → BridgeOutcome
unfolding start_bridge after_start
run_bridge codec windows io at_end me meantime events disk =
    after_start codec windows at_end meantime events (start_bridge codec windows io me disk)
