-- ===== src/Examples/SpikeRuns.antt =====
-- A bridge and a bootstrap of the experiment with IPC at concrete inputs.
use brp_spec.Base.{
  ◌^◌, ◌<◌, ◌≡◌, ◌≢◌, refl, ap, ◌∙◌, subst, inl, inr, true, false, none, some, [], ◌∷◌, string_eq,
  nat_eq, all, all_complete, In, ends_with, ok, arith,
}
use brp_spec.Base.U32.{show}
use brp_spec.Json.{SerdeJson}
use brp_spec.Lockfile.{ProcessAnswers}
use brp_spec.Native.{Utf8, read_native_message}
use brp_spec.Native.Stream.{IsReadable}
use brp_spec.Spike.{
  token_response, LockfileData, Entry, SpikeDisk, ipc_path, now_iso8601, is_pid_alive,
  create_listener, put_entry, write_lockfile,
}
use brp_spec.Spike.Discovery.{has_json_extension}
use brp_spec.Spike.Discovery.Loop.{Holds, Holds-unique}
use brp_spec.Spike.Discovery.Found.{HoldsLive}
use brp_spec.Spike.Bridge.{
  Running, exited, connected, interrupted, lockfile_name, own_data, announce, start_bridge,
  answered, serve_connection, accept_loop, after_start, run_bridge,
}
use brp_spec.Spike.Bootstrap.{BootAnswers, token_request, nm_payload, run_bootstrap}
use brp_spec.Spike.Started.{mine, StartedBefore}
use brp_spec.Spike.Delivery.{IsCarried, run_bootstrap-delivers}
use brp_spec.Spike.Cleanup.{IsCleaned, run_bridge-IsCleaned}
use brp_spec.Examples.Values.{obj, field, str, no_fields, json}
use brp_spec.Examples.Spikes.{
  early, late, me, coding, willing, early_entry, late_entry, two_entries, two_files,
}

-- A bridge with the pid 41 that starts after the two.
abbrev started_files : SpikeDisk
started_files = record {
  lockfile_dir = some (put_entry (lockfile_name 41) "mine" two_entries);
  sockets = ipc_path false "i" ∷ [];
}

abbrev running : Running
running = record { ipc_path = ipc_path false "i"; lockfile = lockfile_name 41 }

bridge_started : start_bridge coding false willing me two_files ≡ (started_files, ok running)
unfolding start_bridge create_listener announce write_lockfile own_data
bridge_started = refl

all_listed :
    all (λ e. willing.listed e.name) (put_entry (lockfile_name 41) "mine" two_entries) ≡ true
all_listed =
    all_complete (λ (e : Entry). true) (put_entry (lockfile_name 41) "mine" two_entries)
      (λ e m. refl)

abbrev system : ProcessAnswers
system = record { kill_zero = λ pid. true; exit_code = λ pid. none }

mine_coded :
    coding.from_str (coding.to_string_pretty (mine coding false me)) ≡ some (mine coding false me)
unfolding own_data
mine_coded = refl

living : is_pid_alive false system 41 ≡ true
unfolding is_pid_alive
living = refl

few_seconds : 1700000009 < 10 ^ 10
few_seconds = omega arith

early_held : Holds coding early_entry early
unfolding has_json_extension ends_with
early_held = record { text = "early"; extension = refl; readable = refl; parsed = refl }

late_held : Holds coding late_entry late
unfolding has_json_extension ends_with
late_held = record { text = "late"; extension = refl; readable = refl; parsed = refl }

early_clock : early.started_at ≡ now_iso8601 1700000000
unfolding now_iso8601 show
early_clock = refl

late_clock : late.started_at ≡ now_iso8601 1700000005
unfolding now_iso8601 show
late_clock = refl

earlier :
    (e : Entry) (d : LockfileData)
    → In e two_entries
    → e.name ≢ lockfile_name 41
    → HoldsLive coding (is_pid_alive false system) d e
    → StartedBefore coding false me d
earlier e d m other (held, alive) = elim m [
  | inl p ↦
      let q =
        Holds-unique coding early_entry d early (subst (λ x. Holds coding x d) p held) early_held in
      (1700000000, ap LockfileData.started_at q ∙ early_clock, omega arith, omega arith)
  | inr n ↦ elim n [
    | inl p ↦
        let q =
          Holds-unique coding late_entry d late (subst (λ x. Holds coding x d) p held) late_held in
        (1700000005, ap LockfileData.started_at q ∙ late_clock, omega arith, omega arith)
    | inr absent ↦ absurd absent
  ]
]

carries_request : IsCarried coding token_request
unfolding token_request
carries_request = record { short = omega arith; filled = refl; back = refl }

carries_token : IsCarried coding (token_response "tok")
carries_token = record { short = omega arith; filled = refl; back = refl }

abbrev token_json : SerdeJson
token_json = record json { from_str = λ s. some (obj (field "token" (str "tok") no_fields)) }

abbrev utf8 : Utf8
utf8 = record {
  as_bytes = λ s. 116 ∷ 111 ∷ 107 ∷ 101 ∷ 110 ∷ 115 ∷ [];
  from_utf8 = λ bytes. some "tokens";
}

token-IsReadable : IsReadable token_json utf8 (nm_payload token_json "tok")
token-IsReadable = record { short = omega arith; decoded = refl; parsed = refl }

abbrev boot : BootAnswers
boot = record { connected = true; written = true; received = some (2 ∷ []); stdout_left = none }

run_bootstrap-delivers_example :
    let seen =
      run_bootstrap token_json utf8 coding (is_pid_alive false system) willing boot started_files in
    (seen.requested ≡ some (ipc_path false "i", coding.to_vec token_request))
    × (serve_connection coding (some (coding.to_vec token_request)) "tok" true
        ≡ answered (coding.to_vec (token_response "tok")))
    × (seen.end ≡ ok tt)
    × (read_native_message token_json utf8 true seen.out
        ≡ ([], ok (some (nm_payload token_json "tok"))))
unfolding own_data
run_bootstrap-delivers_example =
    run_bootstrap-delivers coding "tok" token_json utf8 false system me willing willing boot
      two_files started_files running bridge_started refl all_listed mine_coded living few_seconds
      earlier carries_request carries_token token-IsReadable refl refl refl refl

-- One connection, then Ctrl+C.
bridge_exited :
    (run_bridge coding false willing willing me
      (λ disk. disk)
      (connected (some (1 ∷ [])) "tok" true ∷ interrupted ∷ [])
      two_files).end
    ≡ exited
unfolding run_bridge start_bridge create_listener announce write_lockfile own_data after_start
    accept_loop
bridge_exited = refl

run_bridge-IsCleaned_example :
    IsCleaned false
      (lockfile_name 41)
      (ipc_path false "i")
      (start_bridge coding false willing me two_files).0
      (run_bridge coding false willing willing me
        (λ disk. disk)
        (connected (some (1 ∷ [])) "tok" true ∷ interrupted ∷ [])
        two_files).disk
run_bridge-IsCleaned_example =
    run_bridge-IsCleaned coding false willing willing me (λ disk. disk)
      (connected (some (1 ∷ [])) "tok" true ∷ interrupted ∷ []) two_files bridge_exited refl refl
