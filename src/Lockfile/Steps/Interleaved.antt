-- ===== src/Lockfile/Steps/Interleaved.antt =====
-- bridge/src/lockfile.rs: bridges that are in `acquire` at once.
use brp_spec.Base.{
  ℕ, ◌≡◌, refl, ◌⊎◌, inl, inr, Bool, true, some, List, [], ◌∷◌, nat_eq, ◌==◌, Bool-cases,
  if◌then◌else◌, ok, subst, sym, arith,
}
use brp_spec.Lockfile.{LockData, LockCodec, Disk, LockAnswers, already_running, read, acquire}
use brp_spec.Lockfile.Exclusion.{acquired}
use brp_spec.Lockfile.Steps.{LockStage, looking, reading, failed, Contender, lock_step, interleave}

-- Not yet past the test, or refused by it.
abbrev pub Waits : LockData → LockStage → Type 0
Waits owner stage =
    (stage ≡ looking)
    ⊎ ((stage ≡ reading) ⊎ (stage ≡ failed (already_running owner.pid owner.port)))

-- It can read the lockfile, and finds the owner alive.
abbrev pub Sees : LockData → Contender → Type 0
Sees owner p = (p.io.readable ≡ true) × (p.alive owner.pid ≡ true)

module _ (codec : LockCodec) (owner : LockData) (who : ℕ → Contender) where
  step-Waits :
      (p : Contender) (disk : Disk) (stage : LockStage)
      → codec.from_slice (codec.to_vec owner) ≡ some owner
      → disk.lockfile ≡ some (codec.to_vec owner)
      → Sees owner p
      → Waits owner stage
      → ((lock_step codec p disk stage).0 ≡ disk) × Waits owner (lock_step codec p disk stage).1
  unfolding lock_step read
  step-Waits p disk stage back there sees waits = ground (arith, back, there, sees, waits)

  interleave-Waits :
      (is : List ℕ) (disk : Disk) (stages : ℕ → LockStage)
      → codec.from_slice (codec.to_vec owner) ≡ some owner
      → disk.lockfile ≡ some (codec.to_vec owner)
      → ((i : ℕ) → Sees owner (who i))
      → ((i : ℕ) → Waits owner (stages i))
      → ((interleave codec who is disk stages).0 ≡ disk)
        × ((i : ℕ) → Waits owner ((interleave codec who is disk stages).1 i))
  unfolding interleave
  interleave-Waits [] disk stages back there sees waits = (refl, waits)
  interleave-Waits (i ∷ is) disk stages back there sees waits =
      let r = lock_step codec (who i) disk (stages i) in
      let (same, next) = step-Waits (who i) disk (stages i) back there (sees i) (waits i) in
      let stages' = λ (k : ℕ). if k == i then r.1 else stages k in
      let waits' : (k : ℕ) → Waits owner (stages' k) =
        λ k. elim (Bool-cases (k == i)) [ inl t ↦ rw t next | inr f ↦ rw f (waits k) ] in
      let Rest = λ (d : Disk).
        ((interleave codec who is d stages').0 ≡ disk)
        × ((k : ℕ) → Waits owner ((interleave codec who is d stages').1 k)) in
      subst Rest (sym same) (interleave-Waits is disk stages' back there sees waits')

  -- After a bridge has taken the lockfile, however many other bridges start and however their calls
  -- interleave: none of them ever holds the lockfile, each is still before its test or refused with
  -- the first one's pid and port, and the disk stays as it is. They can read the lockfile and find
  -- the first one alive, and its data are read back.
  pub interleave-exclusive :
      (alive : ℕ → Bool) (io : LockAnswers) (disk disk' : Disk) (is : List ℕ) (i : ℕ)
      → codec.from_slice (codec.to_vec owner) ≡ some owner
      → acquire codec alive owner io disk ≡ (disk', ok tt)
      → ((k : ℕ) → Sees owner (who k))
      → let r = interleave codec who is disk' (λ k. looking) in (r.0 ≡ disk') × Waits owner (r.1 i)
  interleave-exclusive alive io disk disk' is i back taken sees =
      let there = acquired codec alive owner io disk disk' taken in
      let (same, waits) =
        interleave-Waits is disk' (λ k. looking) back there sees (λ k. inl refl) in
      (same, waits i)
