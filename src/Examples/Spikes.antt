-- ===== src/Examples/Spikes.antt =====
-- The experiment with IPC at concrete inputs.
use mathlib.Core.List.{filter_map, Pairwise, Pairwise-pair, Permᴰ}
use brp_spec.Base.{
  ℕ, String, ◌≡◌, refl, Bool, true, false, Option, none, some, List, [], ◌∷◌, string_eq, nat_eq,
  ◌==◌, all, all_complete, eq_iff, if◌then◌else◌, ends_with, ok,
}
use brp_spec.Spike.{
  request_token, token_response, LockfileData, SpikeCodec, SpikeAnswers, Entry, SpikeDisk, ipc_path,
  put_entry,
}
use brp_spec.Spike.Discovery.{has_json_extension, visit, discover_live_instances}
use brp_spec.Spike.Discovery.Loop.{candidate_of}
use brp_spec.Spike.Discovery.Found.{IsDiscovered, discover_live_instances-IsDiscovered}
use brp_spec.Spike.Discovery.Relisted.{
  StartedApart, StartedApart-prop, discover_live_instances-Perm,
}
use brp_spec.Spike.Bridge.{Starting, lockfile_name, own_data}
use brp_spec.Spike.Bootstrap.{token_request}
use brp_spec.Spike.StaleTest.{passed, dead_pid, fake_data, run_stale_test}
use brp_spec.Spike.StaleTest.Outcome.{run_stale_test-outcome}

abbrev pub early : LockfileData
early = record {
  pid = 7;
  ipc_path = "/tmp/a";
  ws_port = 9817;
  started_at = "1700000000Z";
  instance_id = "a";
}

abbrev pub late : LockfileData
late = record {
  pid = 8;
  ipc_path = "/tmp/b";
  ws_port = 9817;
  started_at = "1700000005Z";
  instance_id = "b";
}

abbrev pub me : Starting
me = record { instance_id = "i"; pid = 41; secs = 1700000009 }

-- Serde's coding, as far as the examples use it.
abbrev pub coded : String → Option LockfileData
coded s =
    if s == "early"
    then some early
    else if s == "late"
    then some late
    else if s == "mine"
    then some (own_data me (ipc_path false "i"))
    else if s == "fake"
    then some (fake_data false 1700000020)
    else none

abbrev pub coding : SpikeCodec
coding = record {
  to_string_pretty = λ d. if d.pid == 41 then "mine" else "fake";
  from_str = coded;
  to_vec = λ m. elim m [ request_token id ↦ 1 ∷ [] | token_response token ↦ 2 ∷ [] ];
  from_slice = λ bytes. elim bytes [
    | [] ↦ none
    | b ∷ bs ↦ if b == 1 then some token_request else some (token_response "tok")
  ];
}

abbrev pub willing : SpikeAnswers
willing = record {
  listener_made = true;
  dir_made = true;
  written = true;
  partial = none;
  removed = λ name. true;
  opened = true;
  listed = λ name. true;
}

abbrev pub early_entry : Entry
early_entry = record { name = "7.json"; contents = some "early" }

abbrev pub late_entry : Entry
late_entry = record { name = "8.json"; contents = some "late" }

abbrev pub two_entries : List Entry
two_entries = early_entry ∷ late_entry ∷ []

abbrev pub two_files : SpikeDisk
two_files = record { lockfile_dir = some two_entries; sockets = [] }

abbrev same_files : SpikeDisk
same_files = record { lockfile_dir = some (late_entry ∷ early_entry ∷ []); sockets = [] }

abbrev only_8 : ℕ → Bool
only_8 pid = pid == 8

abbrev both : ℕ → Bool
both pid = true

discover_live_instances-IsDiscovered_example :
    (left : List Entry) × (found : List LockfileData) × (discover_live_instances coding only_8
        willing two_files
      ≡ (record two_files { lockfile_dir = some left }, ok found))
    × IsDiscovered coding only_8 willing two_entries left found
discover_live_instances-IsDiscovered_example =
    discover_live_instances-IsDiscovered coding only_8 willing two_files two_entries refl refl refl

apart : Pairwise StartedApart (filter_map (candidate_of coding both) two_entries)
unfolding visit has_json_extension ends_with filter_map
apart =
    (Pairwise-pair StartedApart-prop).1
      λ h. let b = (eq_iff early.started_at late.started_at).1 h in cc b

discover_live_instances-Perm_example :
    (discover_live_instances coding both willing two_files).1
    ≡ (discover_live_instances coding both willing same_files).1
discover_live_instances-Perm_example =
    discover_live_instances-Perm coding both willing willing two_files same_files two_entries
      (late_entry ∷ early_entry ∷ []) refl refl refl refl refl refl (Permᴰ.swap refl refl) apart

fake_coded :
    coding.from_str (coding.to_string_pretty (fake_data false 1700000020))
    ≡ some (fake_data false 1700000020)
unfolding fake_data
fake_coded = refl

fake_listed :
    all
      (λ e. willing.listed e.name)
      (put_entry
        (lockfile_name dead_pid)
        (coding.to_string_pretty (fake_data false 1700000020))
        two_entries)
    ≡ true
fake_listed =
    all_complete (λ (e : Entry). true)
      (put_entry (lockfile_name dead_pid) (coding.to_string_pretty (fake_data false 1700000020))
        two_entries)
      (λ e m. refl)

run_stale_test-outcome_example :
    (run_stale_test coding false only_8 willing 1700000020 two_files).1 ≡ passed
run_stale_test-outcome_example =
    run_stale_test-outcome coding only_8 false willing 1700000020 two_files refl refl refl
      fake_listed fake_coded
