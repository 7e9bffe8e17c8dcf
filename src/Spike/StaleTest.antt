-- ===== src/Spike/StaleTest.antt =====
-- spikes/b1-ipc-spike/src/main.rs: run_stale_test, and the modes of the program.
pub mod Outcome
use brp_spec.Base.{
  ℕ, String, Bool, true, false, not, ◌&&◌, Option, none, some, List, [], ◌∷◌, string_eq, nat_eq,
  ◌==◌, any, unwrap_or, and_then, if◌then◌else◌, Result, ok, err,
}
use brp_spec.Lockfile.{ProcessAnswers}
use brp_spec.Spike.{
  LockfileData, SpikeCodec, SpikeAnswers, Entry, SpikeDisk, Panic, lockfile_dir_failed, now_iso8601,
  write_lockfile, parse_mode_arg,
}
use brp_spec.Spike.Discovery.{discover_live_instances}
use brp_spec.Spike.Bridge.{lockfile_name}

abbrev pub dead_pid : ℕ
dead_pid = 99999

-- The ways in which the test ends; the exit codes are 2 where it is skipped and 1 where it fails.
pub data TestEnd : Type 0 where
  panicked : Panic → TestEnd
  skipped passed failed : TestEnd

unfoldable pub fake_data : Bool → ℕ → LockfileData
unfolding now_iso8601
fake_data windows secs = record {
  pid = dead_pid;
  ipc_path =
      if windows then "\\\\.\\pipe\\brp-bridge-spike-fake" else "/tmp/brp-bridge-spike-fake.sock";
  ws_port = 9817;
  started_at = now_iso8601 secs;
  instance_id = "fake-instance-for-test";
}

-- `path.exists()` for a file of the directory.
abbrev pub exists : String → SpikeDisk → Bool
exists name disk = any (λ e. e.name == name) (unwrap_or disk.lockfile_dir [])

-- The two checks after the discovery.
unfoldable pub verify : SpikeDisk → List LockfileData → TestEnd
verify disk live =
    let cleaned = not (exists (lockfile_name dead_pid) disk) in
    let excluded = not (any (λ d. d.pid == dead_pid) live) in
    if cleaned && excluded then passed else failed

unfoldable pub after_discovery : SpikeDisk × Result (List LockfileData) Panic → SpikeDisk × TestEnd
unfolding verify
after_discovery (disk, err p) = (disk, panicked p)
after_discovery (disk, ok live) = (disk, verify disk live)

unfoldable pub after_write :
    SpikeCodec → (ℕ → Bool) → SpikeAnswers → SpikeDisk × Result Unit Panic → SpikeDisk × TestEnd
unfolding discover_live_instances after_discovery
after_write codec alive io (disk, err p) = (disk, panicked p)
after_write codec alive io (disk, ok t) =
    after_discovery (discover_live_instances codec alive io disk)

unfoldable pub run_stale_test :
    SpikeCodec → Bool → (ℕ → Bool) → SpikeAnswers → ℕ → SpikeDisk → SpikeDisk × TestEnd
unfolding write_lockfile fake_data after_write
run_stale_test codec windows alive io secs disk =
    if not io.dir_made
    then (disk, panicked lockfile_dir_failed)
    else if alive dead_pid
    then (record disk { lockfile_dir = some (unwrap_or disk.lockfile_dir []) }, skipped)
    else (let contents = codec.to_string_pretty (fake_data windows secs) in
        after_write codec alive io (write_lockfile io (lockfile_name dead_pid) contents disk))

pub data SpikeMode : Type 0 where
  bridge bootstrap stale_test : SpikeMode

-- `main`: the mode that runs; `none` is a message and exit code 1.
unfoldable pub spike_mode : List String → Option SpikeMode
unfolding parse_mode_arg
spike_mode args = and_then (parse_mode_arg args) λ mode.
    if mode == "bridge"
    then some bridge
    else if mode == "bootstrap"
    then some bootstrap
    else if mode == "stale-test"
    then some stale_test
    else none
