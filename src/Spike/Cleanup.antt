-- ===== src/Spike/Cleanup.antt =====
-- spikes/b1-ipc-spike/src/main.rs: what Ctrl+C leaves of a bridge.
use brp_spec.Base.{
  String, ◌≡◌, ◌≢◌, refl, sym, subst, ◌↔◌, Bool, true, not, unwrap_or, List, [], In, Option-cases,
  Bool-cases, ◌⊎◌, inl, inr, In-keep_if, eq_iff, string_eq, ◌==◌, Result, ok, err, arith,
}
use brp_spec.Spike.{SpikeCodec, SpikeAnswers, Entry, SpikeDisk, Panic, ipc_path}
use brp_spec.Spike.Bridge.{
  Starting, Running, BridgeEvent, exited, lockfile_name, start_bridge, clean_up, at_exit,
  after_start, run_bridge,
}
use brp_spec.Spike.Started.{start_bridge-lockfile}

-- The lockfile of that name is gone, and on Unix the socket of that path; all else is there.
pub record IsCleaned (windows : Bool) (name path : String) (before after : SpikeDisk) : Type 0 where
  pub lockfile :
      (e : Entry)
      → In e (unwrap_or after.lockfile_dir [])
        ↔ (In e (unwrap_or before.lockfile_dir []) × (e.name ≢ name))
  pub socket :
      (s : String) → In s after.sockets ↔ (In s before.sockets × ((windows ≡ true) ⊎ (s ≢ path)))

clean_up-IsCleaned :
    (windows : Bool) (at_end : SpikeAnswers) (name path : String) (disk : SpikeDisk)
    → at_end.removed name ≡ true
    → at_end.removed path ≡ true
    → IsCleaned windows name path disk
        (clean_up windows at_end (record { ipc_path = path; lockfile = name }) disk)
unfolding clean_up
clean_up-IsCleaned windows at_end name path disk n p =
    let entry_stays = λ (e : Entry). not (e.name == name) in
    let socket_stays = λ (s : String). not (s == path) in
    record {
      lockfile = λ e. elim (Option-cases disk.lockfile_dir) [
        | inl nothing ↦ rw nothing (ground arith)
        | inr (entries, there) ↦
            rw there (ground (arith, n, In-keep_if entry_stays e entries, eq_iff e.name name))
      ];
      socket = λ s.
          ground
            (arith, p, In-keep_if socket_stays s disk.sockets, eq_iff s path, Bool-cases windows);
    }

-- A bridge that Ctrl+C ends, whatever connections it served before: of the disk as it is then, its
-- own lockfile is gone and, on Unix, its own socket file, if they can be removed, and all else is
-- as it was.
pub run_bridge-IsCleaned :
    (codec : SpikeCodec) (windows : Bool) (io at_end : SpikeAnswers) (me : Starting)
    (meantime : SpikeDisk → SpikeDisk) (events : List BridgeEvent) (disk : SpikeDisk)
    → let ended = run_bridge codec windows io at_end me meantime events disk in
      ended.end ≡ exited
      → at_end.removed (lockfile_name me.pid) ≡ true
      → at_end.removed (ipc_path windows me.instance_id) ≡ true
      → IsCleaned windows
          (lockfile_name me.pid)
          (ipc_path windows me.instance_id)
          (meantime (start_bridge codec windows io me disk).0)
          ended.disk
unfolding run_bridge after_start at_exit
run_bridge-IsCleaned codec windows io at_end me meantime events disk h n p =
    cleaned (start_bridge codec windows io me disk) refl h
  where
    cleaned :
        (started : SpikeDisk × Result Running Panic)
        → start_bridge codec windows io me disk ≡ started
        → (after_start codec windows at_end meantime events started).end ≡ exited
        → IsCleaned windows
            (lockfile_name me.pid)
            (ipc_path windows me.instance_id)
            (meantime started.0)
            (after_start codec windows at_end meantime events started).disk
    cleaned (disk', err p') e h' = cc h'
    cleaned (disk', ok running) e h' =
        let (there, own) = start_bridge-lockfile codec windows me io disk disk' running e in
        let name = lockfile_name me.pid in
        let path = ipc_path windows me.instance_id in
        let left = clean_up-IsCleaned windows at_end name path (meantime disk') n p in
        let done = λ (r : Running).
          IsCleaned windows name path (meantime disk')
            (at_exit windows at_end r exited (meantime disk')) in
        rw h' (subst done (sym own) left)
