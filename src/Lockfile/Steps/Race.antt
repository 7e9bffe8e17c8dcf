-- ===== src/Lockfile/Steps/Race.antt =====
-- bridge/src/lockfile.rs: two bridges that are in `acquire` at once where there is no lockfile.
use mathlib.Core.Path.{fun_ext}
use brp_spec.Base.{
  ℕ, String, ◌≡◌, ◌≢◌, refl, ap, ◌∙◌, Option, none, some, is_some, List, [], ◌∷◌, nat_eq, ◌==◌,
  Bool-cases, if◌then◌else◌, arith,
}
use brp_spec.Lockfile.{LockCodec, Disk, write_failed}
use brp_spec.Lockfile.Exclusion.{AllFine}
use brp_spec.Lockfile.Steps.{
  LockStage, looking, writing, syncing, renaming, holding, failed, Contender, lock_step, interleave,
}

module _ (codec : LockCodec) (p : Contender) (fine : AllFine codec p.io) where
  step-writing :
      (disk : Disk)
      → lock_step codec p disk writing
        ≡ (record disk { tmp_file = some (codec.to_vec p.own) }, syncing)
  unfolding lock_step
  step-writing disk = rw (lock_step, fine.0, fine.1) refl

  -- Where the temporary file is there, whoever wrote it, and where it is gone.
  step-syncing :
      (lock json : Option String)
      → let disk : Disk = record { lockfile = lock; tmp_file = json } in
        lock_step codec p disk syncing
        ≡ (disk, if is_some json then renaming else failed write_failed)
  unfolding lock_step
  step-syncing lock json = rw (lock_step, fine.2) refl

  step-renaming :
      (lock : Option String) (json : String)
      → lock_step codec p (record { lockfile = lock; tmp_file = some json }) renaming
        ≡ (record { lockfile = some json; tmp_file = none }, holding)
  unfolding lock_step
  step-renaming lock json = rw (lock_step, fine.3) refl

step-looking :
    (codec : LockCodec) (p : Contender) (disk : Disk)
    → disk.lockfile ≡ none
    → lock_step codec p disk looking ≡ (disk, writing)
unfolding lock_step
step-looking codec p disk free = rw (lock_step, free) refl

module _ (codec : LockCodec) (who : ℕ → Contender) (i j : ℕ) (ne : i ≢ j) where
  -- The two bridges at their stages.
  abbrev two : LockStage → LockStage → ℕ → LockStage
  two a b k = if k == i then a else if k == j then b else looking

  two_i : (a b : LockStage) → two a b i ≡ a
  two_i a b = ground arith

  two_j : (a b : LockStage) → two a b j ≡ b
  two_j a b = ground (arith, ne)

  step_i :
      (is : List ℕ) (d d' : Disk) (a b a' : LockStage)
      → lock_step codec (who i) d a ≡ (d', a')
      → interleave codec who (i ∷ is) d (two a b) ≡ interleave codec who is d' (two a' b)
  unfolding interleave
  step_i is d d' a b a' e =
      let next = λ (r : Disk × LockStage).
        interleave codec who is r.0 (λ k. if k == i then r.1 else two a b k) in
      ap (λ s. next (lock_step codec (who i) d s)) (two_i a b)
      ∙ ap next e
      ∙ ap (interleave codec who is d') (fun_ext λ k. ground (arith, Bool-cases (k == i)))

  step_j :
      (is : List ℕ) (d d' : Disk) (a b b' : LockStage)
      → lock_step codec (who j) d b ≡ (d', b')
      → interleave codec who (j ∷ is) d (two a b) ≡ interleave codec who is d' (two a b')
  unfolding interleave
  step_j is d d' a b b' e =
      let next = λ (r : Disk × LockStage).
        interleave codec who is r.0 (λ k. if k == j then r.1 else two a b k) in
      ap (λ s. next (lock_step codec (who j) d s)) (two_j a b)
      ∙ ap next e
      ∙ ap (interleave codec who is d') (fun_ext λ k. ground (arith, ne, Bool-cases (k == i)))

  two_looking : (k : ℕ) → looking ≡ two looking looking k
  two_looking k = ground (arith, Bool-cases (k == i), Bool-cases (k == j))

  -- Both look, and see nothing.
  both_look :
      (is : List ℕ) (disk : Disk)
      → disk.lockfile ≡ none
      → interleave codec who (i ∷ j ∷ is) disk (λ k. looking)
        ≡ interleave codec who is disk (two writing writing)
  both_look is disk free =
      ap (interleave codec who (i ∷ j ∷ is) disk) (fun_ext two_looking)
      ∙ step_i (j ∷ is) disk disk looking looking writing (step-looking codec (who i) disk free)
      ∙ step_j is disk disk writing looking writing (step-looking codec (who j) disk free)

  apart_end :
      (disk : Disk)
      → disk.lockfile ≡ none
      → AllFine codec (who i).io
      → AllFine codec (who j).io
      → interleave codec who (i ∷ j ∷ i ∷ i ∷ i ∷ j ∷ j ∷ j ∷ []) disk (λ k. looking) ≡ (
        record { lockfile = some (codec.to_vec (who j).own); tmp_file = none },
        two holding holding,
      )
  unfolding interleave
  apart_end disk free fine fine' =
      let first = codec.to_vec (who i).own in
      let second = codec.to_vec (who j).own in
      let lock = disk.lockfile in
      both_look (i ∷ i ∷ i ∷ j ∷ j ∷ j ∷ []) disk free
      ∙ step_i (i ∷ i ∷ j ∷ j ∷ j ∷ []) disk _ writing writing syncing
          (step-writing codec (who i) fine disk)
      ∙ step_i (i ∷ j ∷ j ∷ j ∷ []) _ _ syncing writing renaming
          (step-syncing codec (who i) fine lock (some first))
      ∙ step_i (j ∷ j ∷ j ∷ []) _ _ renaming writing holding
          (step-renaming codec (who i) fine lock first)
      ∙ step_j (j ∷ j ∷ []) _ _ holding writing syncing
          (step-writing codec (who j) fine' (record { lockfile = some first; tmp_file = none }))
      ∙ step_j (j ∷ []) _ _ holding syncing renaming
          (step-syncing codec (who j) fine' (some first) (some second))
      ∙ step_j [] _ _ holding renaming holding
          (step-renaming codec (who j) fine' (some first) second)

  mixed_end :
      (disk : Disk)
      → disk.lockfile ≡ none
      → AllFine codec (who i).io
      → AllFine codec (who j).io
      → interleave codec who (i ∷ j ∷ i ∷ j ∷ i ∷ i ∷ j ∷ []) disk (λ k. looking) ≡ (
        record { lockfile = some (codec.to_vec (who j).own); tmp_file = none },
        two holding (failed write_failed),
      )
  unfolding interleave
  mixed_end disk free fine fine' =
      let second = codec.to_vec (who j).own in
      let lock = disk.lockfile in
      both_look (i ∷ j ∷ i ∷ i ∷ j ∷ []) disk free
      ∙ step_i (j ∷ i ∷ i ∷ j ∷ []) disk _ writing writing syncing
          (step-writing codec (who i) fine disk)
      ∙ step_j (i ∷ i ∷ j ∷ []) _ _ syncing writing syncing (
          step-writing codec (who j) fine'
            (record { lockfile = lock; tmp_file = some (codec.to_vec (who i).own) }))
      ∙ step_i (i ∷ j ∷ []) _ _ syncing syncing renaming
          (step-syncing codec (who i) fine lock (some second))
      ∙ step_i (j ∷ []) _ _ renaming syncing holding (step-renaming codec (who i) fine lock second)
      ∙ step_j [] _ _ holding syncing (failed write_failed)
          (step-syncing codec (who j) fine' (some second) none)

  -- Two bridges that start at once where there is no lockfile, with calls that succeed. Both look
  -- before either writes. If one then goes through its calls before the other, both hold the
  -- lockfile, and it is the second one's. If both write the temporary file, which they share, and
  -- the first one then syncs and renames it before the second one goes on, the first one holds a
  -- lockfile with the second one's data, and the second one fails.
  pub acquire_race :
      (disk : Disk)
      → disk.lockfile ≡ none
      → AllFine codec (who i).io
      → AllFine codec (who j).io
      → let apart = interleave codec who (i ∷ j ∷ i ∷ i ∷ i ∷ j ∷ j ∷ j ∷ []) disk (λ k. looking) in
        let mixed = interleave codec who (i ∷ j ∷ i ∷ j ∷ i ∷ i ∷ j ∷ []) disk (λ k. looking) in
        (apart.1 i ≡ holding)
        × (apart.1 j ≡ holding)
        × (apart.0.lockfile ≡ some (codec.to_vec (who j).own))
        × (mixed.1 i ≡ holding)
        × (mixed.1 j ≡ failed write_failed)
        × (mixed.0.lockfile ≡ some (codec.to_vec (who j).own))
  acquire_race disk free fine fine' =
      let apart = apart_end disk free fine fine' in
      let mixed = mixed_end disk free fine fine' in
      (
        ap (λ r. r.1 i) apart ∙ two_i holding holding,
        ap (λ r. r.1 j) apart ∙ two_j holding holding,
        ap (λ r. r.0.lockfile) apart,
        ap (λ r. r.1 i) mixed ∙ two_i holding (failed write_failed),
        ap (λ r. r.1 j) mixed ∙ two_j holding (failed write_failed),
        ap (λ r. r.0.lockfile) mixed,
      )
