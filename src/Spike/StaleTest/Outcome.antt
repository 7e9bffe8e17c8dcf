-- ===== src/Spike/StaleTest/Outcome.antt =====
-- spikes/b1-ipc-spike/src/main.rs: when the test of the stale lockfile passes.
use brp_spec.Base.{
  ℕ, String, ◌≡◌, ==_refl, refl, sym, ◌∙◌, ap, subst, inl, inr, Bool, true, false, not, some, List,
  [], any, any_sound, any_complete, all, unwrap_or, string_eq, nat_eq, ◌==◌, eq_iff, Bool-cases,
  if◌then◌else◌, arith,
}
use brp_spec.Spike.{LockfileData, SpikeCodec, SpikeAnswers, Entry, SpikeDisk, put_entry}
use brp_spec.Spike.Bridge.{lockfile_name}
use brp_spec.Spike.Files.{write_lockfile-written, In-put_entry, lockfile_name-extension}
use brp_spec.Spike.Discovery.Loop.{Holds}
use brp_spec.Spike.Discovery.Found.{IsDiscovered, IsStale, discover_live_instances-IsDiscovered}
use brp_spec.Spike.StaleTest.{
  skipped, passed, failed, dead_pid, fake_data, exists, verify, after_discovery, after_write,
  run_stale_test,
}

module _ (codec : SpikeCodec) (alive : ℕ → Bool) where
  -- After a discovery the file of a dead process is there exactly if it cannot be removed.
  exists-discovered :
      (io : SpikeAnswers) (entries left : List Entry) (found : List LockfileData) (disk : SpikeDisk)
      (name contents : String) (d : LockfileData)
      → IsDiscovered codec alive io (put_entry name contents entries) left found
      → Holds codec (record { name = name; contents = some contents }) d
      → alive d.pid ≡ false
      → exists name (record disk { lockfile_dir = some left }) ≡ not (io.removed name)
  exists-discovered io entries left found disk name contents d seen held dead =
      let own : Entry = record { name = name; contents = some contents } in
      let is_own = λ (e : Entry). e.name == name in
      elim (Bool-cases (io.removed name)) [
        | inl t ↦ elim (Bool-cases (any is_own left)) [
          | inl there ↦
              let (e, m, q) = any_sound is_own left there in
              let (m', not_stale) = (seen.left_iff e).0 m in
              elim ((In-put_entry name contents entries e).0 m') [
                | inl (m'', other) ↦ absurd (other ((eq_iff e.name name).0 q))
                | inr same ↦
                    let stale : IsStale codec alive e =
                      subst (IsStale codec alive) (sym same) (d, held, dead) in
                    absurd (not_stale (stale, cc (same, t)))
              ]
          | inr gone ↦ cc (gone, t)
        ]
        | inr f ↦
            let m = (In-put_entry name contents entries own).1 (inr refl) in
            let kept = (seen.left_iff own).1 (m, λ (s, r). cc (r, f)) in
            cc (any_complete is_own own left kept (==_refl name), f)
      ]

  -- No candidate has a dead pid.
  found-excludes :
      (io : SpikeAnswers) (entries left : List Entry) (found : List LockfileData) (pid : ℕ)
      → IsDiscovered codec alive io entries left found
      → alive pid ≡ false
      → any (λ d. d.pid == pid) found ≡ false
  found-excludes io entries left found pid seen dead =
      let has_pid = λ (d : LockfileData). d.pid == pid in
      elim (Bool-cases (any has_pid found)) [
        | inl t ↦
            let (d, m, q) = any_sound has_pid found t in
            let (e, m', (held, living)) = (seen.found_iff d).0 m in
            let same : d.pid ≡ pid = (nat_eq.beq_iff d.pid pid).0 q in cc (same, living, dead)
        | inr f ↦ f
      ]

  -- The test of the stale lockfile, if the directory and the fake lockfile can be written, the
  -- directory with it can be listed, and the fake data are read back: it is skipped where a process
  -- with the pid 99999 is alive; otherwise it passes exactly if the fake lockfile can be removed.
  pub run_stale_test-outcome :
      (windows : Bool) (io : SpikeAnswers) (secs : ℕ) (disk : SpikeDisk)
      → let contents = codec.to_string_pretty (fake_data windows secs) in
        let name = lockfile_name dead_pid in
        let entries = put_entry name contents (unwrap_or disk.lockfile_dir []) in
        io.dir_made ≡ true
        → io.written ≡ true
        → io.opened ≡ true
        → all (λ e. io.listed e.name) entries ≡ true
        → codec.from_str contents ≡ some (fake_data windows secs)
        → (run_stale_test codec windows alive io secs disk).1
          ≡ (if alive dead_pid then skipped else if io.removed name then passed else failed)
  unfolding run_stale_test after_write after_discovery verify
  run_stale_test-outcome windows io secs disk made written opened listed back =
      let data' = fake_data windows secs in
      let contents = codec.to_string_pretty data' in
      let name = lockfile_name dead_pid in
      let before = unwrap_or disk.lockfile_dir [] in
      let entries = put_entry name contents before in
      let disk' : SpikeDisk = record disk { lockfile_dir = some entries } in
      let (left, found, e, seen) =
        discover_live_instances-IsDiscovered codec alive io disk' entries refl opened listed in
      let held : Holds codec (record { name = name; contents = some contents }) data' = record {
        text = contents;
        extension = lockfile_name-extension dead_pid;
        readable = refl;
        parsed = back;
      } in
      elim (Bool-cases (alive dead_pid)) [
        | inl a ↦ rw (run_stale_test, made, a) refl
        | inr a ↦
            let here =
              exists-discovered io before left found disk' name contents data' seen held a in
            let wrote = write_lockfile-written io name contents disk written in
            let excluded = found-excludes io entries left found dead_pid seen a in
            rw (run_stale_test, made, a)
              (ap (λ w. (after_write codec alive io w).1) wrote
                ∙ ap (λ r. (after_discovery r).1) e
                ∙ rw (verify, here, excluded) (ground arith))
      ]
