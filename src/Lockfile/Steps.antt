-- ===== src/Lockfile/Steps.antt =====
-- bridge/src/lockfile.rs: `acquire` call by call, since several bridges can be in it at once. The
-- lockfile and the temporary file are shared. (Windows has no sync; there the rename fails in its
-- place.)
pub mod Alone
pub mod Interleaved
pub mod Race
use brp_spec.Base.{
  ℕ, Bool, not, ◌&&◌, Option, none, some, is_some, if◌then◌else◌, nat_eq, ◌==◌, List, [], ◌∷◌,
}
use brp_spec.Lockfile.{
  LockData, LockCodec, Disk, LockAnswers, LockError, already_running, write_failed, read,
  remove_file,
}

-- The next call: `exists`, the read with the test of the pid, `remove_file`, the write of the
-- temporary file, its sync, and the rename; or the end.
pub data LockStage : Type 0 where
  looking reading cleaning writing syncing renaming holding : LockStage
  failed : LockError → LockStage

-- A process in `acquire`: its data, whom it finds alive, and what its calls answer.
pub record Contender : Type 0 where
  pub own : LockData
  pub alive : ℕ → Bool
  pub io : LockAnswers

abbrev pub after_read : (ℕ → Bool) → Option LockData → LockStage
after_read alive none = cleaning
after_read alive (some existing) =
    if alive existing.pid then failed (already_running existing.pid existing.port) else cleaning

module _ (codec : LockCodec) where
  -- One call. The sync and the rename fail where the temporary file is gone.
  unfoldable pub lock_step : Contender → Disk → LockStage → Disk × LockStage
  unfolding read
  lock_step p disk looking = (disk, if is_some disk.lockfile then reading else writing)
  lock_step p disk reading = (disk, after_read p.alive (read codec p.io disk))
  lock_step p disk cleaning = (remove_file p.io disk, writing)
  lock_step p disk writing =
      if not p.io.dir_made
      then (disk, failed write_failed)
      else if not p.io.written
      then (record disk { tmp_file = p.io.partial }, failed write_failed)
      else (record disk { tmp_file = some (codec.to_vec p.own) }, syncing)
  lock_step p disk syncing =
      (disk, if p.io.synced && is_some disk.tmp_file then renaming else failed write_failed)
  lock_step p disk renaming = elim disk.tmp_file [
    | none ↦ (disk, failed write_failed)
    | some json ↦
        if p.io.renamed
        then (record { lockfile = some json; tmp_file = none }, holding)
        else (disk, failed write_failed)
  ]
  lock_step p disk holding = (disk, holding)
  lock_step p disk (failed e) = (disk, failed e)

  -- The calls of one process with nobody between them.
  unfoldable pub all_steps : Contender → Disk → Disk × LockStage
  unfolding lock_step
  all_steps p disk =
      let (s1, a) = lock_step p disk looking in
      let (s2, b) = lock_step p s1 a in
      let (s3, c) = lock_step p s2 b in
      let (s4, d) = lock_step p s3 c in let (s5, e) = lock_step p s4 d in lock_step p s5 e

  -- Processes by their numbers, each at its stage; one of them makes its next call.
  unfoldable pub interleave :
      (ℕ → Contender) → List ℕ → Disk → (ℕ → LockStage) → Disk × (ℕ → LockStage)
  unfolding lock_step
  interleave who [] disk stages = (disk, stages)
  interleave who (i ∷ is) disk stages =
      let r = lock_step (who i) disk (stages i) in
      interleave who is r.0 (λ k. if k == i then r.1 else stages k)
