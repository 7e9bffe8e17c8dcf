-- ===== src/Spike/Files.antt =====
-- spikes/b1-ipc-spike/src/main.rs: the names of lockfiles, and a directory after a write.
use Prim.Native.String.{String}
use brp_spec.Base.{
  ℕ, ◌≡◌, ◌≢◌, refl, ◌⊎◌, inl, inr, ◌↔◌, true, false, not, some, List, [], ◌∷◌, In, Bool-cases,
  starts_with, ap, keep_if, In-append, unwrap_or, ok, In-keep_if, string_eq, ◌==◌, eq_iff, ◌<>◌,
  arith,
}
use brp_spec.Base.Text.{ends_with-append}
use brp_spec.Base.U32.{show-head, digit_char}
use brp_spec.Spike.{Entry, SpikeAnswers, SpikeDisk, put_entry, write_lockfile}
use brp_spec.Spike.Bridge.{lockfile_name}
use brp_spec.Spike.Discovery.{has_json_extension}

digit-not_dot : (d : ℕ) (s : String) → (String.◌∷◌ (digit_char d) (s <> ".json") == ".json") ≡ false
unfolding digit_char starts_with
digit-not_dot d s =
    let name = String.◌∷◌ (digit_char d) (s <> ".json") in
    elim (Bool-cases (name == ".json")) [
      | inl t ↦
          let dotted : starts_with name "." ≡ true =
            ap (λ x. starts_with x ".") ((eq_iff name ".json").0 t) in
          ground (arith, dotted)
      | inr f ↦ f
    ]

pub lockfile_name-extension : (pid : ℕ) → has_json_extension (lockfile_name pid) ≡ true
unfolding has_json_extension
lockfile_name-extension pid =
    let (d, s, e) = show-head pid in
    rw
      (
        has_json_extension,
        e,
        digit-not_dot d s,
        ends_with-append (String.◌∷◌ (digit_char d) s) ".json",
      )
      refl

-- After a write, the file of that name is the one that was written.
pub In-put_entry :
    (name contents : String) (entries : List Entry) (e : Entry)
    → In e (put_entry name contents entries)
      ↔ ((In e entries × (e.name ≢ name)) ⊎ (e ≡ record { name = name; contents = some contents }))
In-put_entry name contents entries e =
    let own : Entry = record { name = name; contents = some contents } in
    let other = λ (x : Entry). not (x.name == name) in
    ground (
      arith,
      In-append e (keep_if other entries) (own ∷ []),
      In-keep_if other e entries,
      eq_iff e.name name,
    )

pub write_lockfile-written :
    (io : SpikeAnswers) (name contents : String) (disk : SpikeDisk)
    → io.written ≡ true
    → write_lockfile io name contents disk ≡ (
      record disk {
        lockfile_dir = some (put_entry name contents (unwrap_or disk.lockfile_dir []));
      },
      ok tt,
    )
unfolding write_lockfile
write_lockfile-written io name contents disk h = rw (h, write_lockfile) refl
