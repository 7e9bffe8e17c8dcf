-- ===== src/Lockfile.antt =====
-- bridge/src/lockfile.rs: the lockfile that keeps a second bridge from starting. What the file
-- system and `kill(pid, 0)` answer, and the coding of the file by serde, are arguments.
pub mod Exclusion
pub mod Failure
pub mod Steps
use brp_spec.Base.{
  ℕ, String, Bool, true, false, not, Option, none, some, if◌then◌else◌, and_then, unwrap_or, Result,
  ok, err, nat_eq, ◌==◌, ◌<>◌,
}
use brp_spec.Base.U32.{show}
use brp_spec.Config.{Host}

-- `pid` is a u32 and `port` a u16.
pub record LockData : Type 0 where
  pub pid : ℕ
  pub port : ℕ
  pub token : Option String

pub record LockCodec : Type 0 where
  pub to_vec : LockData → String
  pub from_slice : String → Option LockData

unfoldable pub lockfile_path : Host → ℕ → String
lockfile_path host uid =
    if host.windows
    then (let localappdata = unwrap_or (host.env_var "LOCALAPPDATA") "." in
        host.join (host.join localappdata "brp-bridge") "bridge.lock")
    else elim (host.env_var "XDG_RUNTIME_DIR") [
      | some dir ↦ host.join dir "brp-bridge.lock"
      | none ↦ "/tmp/brp-bridge-" <> (show uid <> ".lock")
    ]

-- What the system answers about a pid: whether `kill(pid, 0)` returns 0; on Windows whether the
-- process can be opened, and its exit code if that can be read.
pub record ProcessAnswers : Type 0 where
  pub kill_zero : ℕ → Bool
  pub exit_code : ℕ → Option (Option ℕ)

abbrev pub still_active : ℕ
still_active = 259

unfoldable pub is_pid_alive_impl : Bool → ProcessAnswers → ℕ → Bool
is_pid_alive_impl windows system pid =
    if windows
    then (elim (system.exit_code pid) [
      | none ↦ false
      | some code ↦ elim code [ none ↦ false | some n ↦ n == still_active ]
    ])
    else system.kill_zero pid

-- The lockfile and the temporary file beside it, if they are there.
pub record Disk : Type 0 where
  pub lockfile : Option String
  pub tmp_file : Option String

-- Whether each call succeeds; `synced` stands for opening, syncing and restricting the temporary
-- file, and `partial` is the temporary file after a failed write.
pub record LockAnswers : Type 0 where
  pub readable : Bool
  pub removed : Bool
  pub dir_made : Bool
  pub written : Bool
  pub synced : Bool
  pub renamed : Bool
  pub partial : Option String

pub data LockError : Type 0 where
  already_running : ℕ → ℕ → LockError
  write_failed : LockError

abbrev pub remove_file : LockAnswers → Disk → Disk
remove_file io disk = if io.removed then record disk { lockfile = none } else disk

module _ (codec : LockCodec) where
  unfoldable pub write_lockfile : LockData → LockAnswers → Disk → Disk × Result Unit LockError
  write_lockfile lock_data io disk =
      let json = codec.to_vec lock_data in
      if not io.dir_made
      then (disk, err write_failed)
      else if not io.written
      then (record disk { tmp_file = io.partial }, err write_failed)
      else if not io.synced
      then (record disk { tmp_file = some json }, err write_failed)
      else if not io.renamed
      then (record disk { tmp_file = some json }, err write_failed)
      else (record { lockfile = some json; tmp_file = none }, ok tt)

  -- `none` where the file is missing, cannot be read or does not parse.
  unfoldable pub read : LockAnswers → Disk → Option LockData
  read io disk = if io.readable then and_then disk.lockfile codec.from_slice else none

  unfoldable pub acquire : (ℕ → Bool) → LockData → LockAnswers → Disk → Disk × Result Unit LockError
  unfolding write_lockfile read
  acquire is_pid_alive lock_data io disk = elim disk.lockfile [
    | none ↦ write_lockfile lock_data io disk
    | some bytes ↦ elim (read io disk) [
      | none ↦ write_lockfile lock_data io (remove_file io disk)
      | some existing ↦
          if is_pid_alive existing.pid
          then (disk, err (already_running existing.pid existing.port))
          else write_lockfile lock_data io (remove_file io disk)
    ]
  ]

-- On shutdown the lockfile goes, whoever wrote it.
unfoldable pub release : LockAnswers → Disk → Disk
release io disk = remove_file io disk
