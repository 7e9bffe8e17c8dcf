-- ===== src/Lockfile/Failure.antt =====
-- bridge/src/lockfile.rs: what is left where a call fails, and after a release.
use brp_spec.Base.{
  ℕ, Bool, true, none, ◌≡◌, ◌⊎◌, inl, inr, refl, Option-cases, arith, Result, ok, err,
}
use brp_spec.Lockfile.{
  LockData, LockCodec, LockAnswers, LockError, Disk, write_lockfile, read, remove_file, acquire,
  release,
}

pub released :
    (io : LockAnswers) (disk : Disk) → io.removed ≡ true → (release io disk).lockfile ≡ none
unfolding release
released io disk h = rw h refl

-- What a call that can fail leaves and answers.
pub answer-cases :
    {D A E : Type 0} (r : D × Result A E)
    → ((a : A) × (r ≡ (r.0, ok a))) ⊎ ((e : E) × (r ≡ (r.0, err e)))
answer-cases (d, ok a) = inl (a, refl)
answer-cases (d, err e) = inr (e, refl)

module _ (codec : LockCodec) where
  failed_write :
      (lock_data : LockData) (io : LockAnswers) (disk disk' : Disk) (e : LockError)
      → write_lockfile codec lock_data io disk ≡ (disk', err e)
      → disk'.lockfile ≡ disk.lockfile
  unfolding write_lockfile
  failed_write lock_data io disk disk' e h = ground (arith, h)

  -- An `acquire` that fails leaves the lockfile, or has removed a stale or corrupt one.
  pub failed_acquire :
      (alive : ℕ → Bool) (lock_data : LockData) (io : LockAnswers) (disk disk' : Disk)
      (e : LockError)
      → acquire codec alive lock_data io disk ≡ (disk', err e)
      → (disk'.lockfile ≡ none) ⊎ (disk'.lockfile ≡ disk.lockfile)
  unfolding acquire
  failed_acquire alive lock_data io disk disk' e h = ground (
    arith,
    h,
    failed_write lock_data io disk disk' e,
    failed_write lock_data io (remove_file io disk) disk' e,
    Option-cases disk.lockfile,
    Option-cases (read codec io disk),
  )
