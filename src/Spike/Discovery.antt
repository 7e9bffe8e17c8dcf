-- ===== src/Spike/Discovery.antt =====
-- spikes/b1-ipc-spike/src/main.rs: discover_live_instances.
pub mod Sorted
pub mod Loop
pub mod Found
pub mod Relisted
use brp_spec.Base.{
  ℕ, String, Bool, true, false, not, ◌&&◌, Option, none, some, List, [], ◌∷◌, string_eq, ◌==◌,
  if◌then◌else◌, ends_with, Result, ok, err,
}
use brp_spec.Base.TextOrder.{text_leb}
use brp_spec.Lockfile.{ProcessAnswers}
use brp_spec.Spike.{
  LockfileData, SpikeCodec, SpikeAnswers, Entry, SpikeDisk, Panic, read_dir_failed,
  dir_entry_failed,
}

-- `path.extension() == Some("json")`: a name that only starts with a dot has no extension.
unfoldable pub has_json_extension : String → Bool
has_json_extension name = ends_with name ".json" && not (name == ".json")

-- What the loop does with an entry: nothing, take its data, or remove it.
pub data Visit : Type 0 where
  skipped : Visit
  live stale : LockfileData → Visit

unfoldable pub visit : SpikeCodec → (ℕ → Bool) → Entry → Visit
unfolding has_json_extension
visit codec alive entry =
    if not (has_json_extension entry.name) then skipped else elim entry.contents [
      | none ↦ skipped
      | some text ↦ elim (codec.from_str text) [
        | none ↦ skipped
        | some found ↦ if alive found.pid then live found else stale found
      ]
    ]

-- The loop over the entries: the entries that are left, and the candidates in their order.
unfoldable pub scan :
    SpikeCodec
    → (ℕ → Bool)
    → SpikeAnswers
    → List Entry
    → List Entry × Result (List LockfileData) Panic
scan codec alive io [] = ([], ok [])
scan codec alive io (entry ∷ entries) =
    let rest = scan codec alive io entries in
    if not (io.listed entry.name)
    then (entry ∷ entries, err dir_entry_failed)
    else elim (visit codec alive entry) [
      | skipped ↦ (entry ∷ rest.0, rest.1)
      | live found ↦
          (entry ∷ rest.0, elim rest.1 [ ok candidates ↦ ok (found ∷ candidates) | err p ↦ err p ])
      | stale found ↦ (if io.removed entry.name then rest.0 else entry ∷ rest.0, rest.1)
    ]

-- `candidates.sort_by(|a, b| b.started_at.cmp(&a.started_at))`, which is stable: `a` goes in front
-- of what started when it did or before.
unfoldable pub insert_mru : LockfileData → List LockfileData → List LockfileData
insert_mru a [] = a ∷ []
insert_mru a (b ∷ bs) =
    let later = insert_mru a bs in
    if text_leb b.started_at a.started_at then a ∷ b ∷ bs else b ∷ later

unfoldable pub sort_mru : List LockfileData → List LockfileData
sort_mru [] = []
sort_mru (a ∷ bs) = insert_mru a (sort_mru bs)

unfoldable pub discover_live_instances :
    SpikeCodec
    → (ℕ → Bool)
    → SpikeAnswers
    → SpikeDisk
    → SpikeDisk × Result (List LockfileData) Panic
unfolding scan sort_mru
discover_live_instances codec alive io disk = elim disk.lockfile_dir [
  | none ↦ (disk, ok [])
  | some entries ↦
      if not io.opened
      then (disk, err read_dir_failed)
      else (let r = scan codec alive io entries in
          (
            record disk { lockfile_dir = some r.0 },
            elim r.1 [ ok candidates ↦ ok (sort_mru candidates) | err p ↦ err p ],
          ))
]
