-- ===== src/Lockfile/Exclusion.antt =====
-- bridge/src/lockfile.rs: who can start beside whom.
use brp_spec.Base.{
  ℕ, ◌≡◌, inl, inr, refl, Bool, true, none, some, Option-cases, Bool-cases, arith, ok, err,
}
use brp_spec.Lockfile.{
  LockData, LockCodec, Disk, LockAnswers, already_running, write_lockfile, read, remove_file,
  acquire,
}

module _ (codec : LockCodec) where
  written :
      (lock_data : LockData) (io : LockAnswers) (disk disk' : Disk)
      → write_lockfile codec lock_data io disk ≡ (disk', ok tt)
      → disk'.lockfile ≡ some (codec.to_vec lock_data)
  unfolding write_lockfile
  written lock_data io disk disk' h = ground (arith, h)

  pub acquired :
      (alive : ℕ → Bool) (lock_data : LockData) (io : LockAnswers) (disk disk' : Disk)
      → acquire codec alive lock_data io disk ≡ (disk', ok tt)
      → disk'.lockfile ≡ some (codec.to_vec lock_data)
  unfolding acquire
  acquired alive lock_data io disk disk' h = ground (
    arith,
    h,
    written lock_data io disk disk',
    written lock_data io (remove_file io disk) disk',
    Option-cases disk.lockfile,
    Option-cases (read codec io disk),
  )

  -- While a bridge that took the lockfile is alive, no other bridge that can read the lockfile
  -- takes it: it is refused with the first one's pid and port, and the disk stays as it is. The first
  -- one's data must be read back from the text that is written.
  acquire-exclusive :
      (alive alive' : ℕ → Bool) (first second : LockData) (io io' : LockAnswers) (disk disk' : Disk)
      → codec.from_slice (codec.to_vec first) ≡ some first
      → acquire codec alive first io disk ≡ (disk', ok tt)
      → io'.readable ≡ true
      → alive' first.pid ≡ true
      → acquire codec alive' second io' disk' ≡ (disk', err (already_running first.pid first.port))
  unfolding acquire read
  acquire-exclusive alive alive' first second io io' disk disk' back taken readable living =
      let held = acquired alive first io disk disk' taken in
      ground (arith, held, back, readable, living)

  -- A pid that a readable, well-formed lockfile names and that is alive.
  pub data IsHeld (alive : ℕ → Bool) (io : LockAnswers) (disk : Disk) : Type 0 where
    held :
        (owner : LockData)
        → read codec io disk ≡ some owner
        → alive owner.pid ≡ true
        → IsHeld alive io disk

  abbrev pub AllFine : LockAnswers → Type 0
  AllFine io = (io.dir_made ≡ true) × (io.written ≡ true) × (io.synced ≡ true) × (io.renamed ≡ true)

  -- Where every call that writes the lockfile succeeds, a bridge starts unless the lockfile is held: no lockfile,
  -- a corrupt one or one of a dead process does not stop it, and the lockfile is then its own.
  acquire_starts :
      (alive : ℕ → Bool) (own : LockData) (io : LockAnswers) (disk : Disk)
      → AllFine io
      → ¬ IsHeld alive io disk
      → acquire codec alive own io disk
        ≡ (record { lockfile = some (codec.to_vec own); tmp_file = none }, ok tt)
  unfolding acquire write_lockfile
  acquire_starts alive own io disk (made, written, synced, renamed) free =
      elim (Option-cases disk.lockfile) [
        | inl e ↦ rw (acquire, e, made, written, synced, renamed) refl
        | inr (bytes, e) ↦ elim (Option-cases (read codec io disk)) [
          | inl f ↦ rw (acquire, e, f, made, written, synced, renamed) refl
          | inr (owner, f) ↦ elim (Bool-cases (alive owner.pid)) [
            | inl living ↦ absurd (free (held owner f living))
            | inr dead ↦ rw (acquire, e, f, dead, made, written, synced, renamed) refl
          ]
        ]
      ]
