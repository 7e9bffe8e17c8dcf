-- ===== src/Lockfile/Steps/Alone.antt =====
-- bridge/src/lockfile.rs: the calls of one process alone are `acquire`.
use brp_spec.Base.{◌≡◌, Option-cases, Result, ok, err, arith}
use brp_spec.Lockfile.{LockCodec, Disk, LockError, read, write_lockfile, acquire}
use brp_spec.Lockfile.Steps.{LockStage, holding, failed, Contender, lock_step, all_steps}

abbrev stage_of : Result Unit LockError → LockStage
stage_of (ok t) = holding
stage_of (err e) = failed e

module _ (codec : LockCodec) where
  -- What `acquire` answers is where the calls end, on the same disk.
  all_steps-acquire :
      (p : Contender) (disk : Disk)
      → let r = acquire codec p.alive p.own p.io disk in
        all_steps codec p disk ≡ (r.0, stage_of r.1)
  unfolding all_steps lock_step acquire write_lockfile
  all_steps-acquire p disk =
      ground (arith, Option-cases disk.lockfile, Option-cases (read codec p.io disk))
