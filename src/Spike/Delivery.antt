-- ===== src/Spike/Delivery.antt =====
-- spikes/b1-ipc-spike/src/main.rs: from the bridge that starts to the token on the bootstrap's
-- stdout.
use mathlib.Core.List.{append-nil}
use brp_spec.Base.{
  ℕ, zero, suc, ◌^◌, ◌≤◌, ◌<◌, String, ◌≡◌, ◌≢◌, refl, ap, ◌∙◌, Bool, true, false, none, some,
  unwrap_or, List, [], ◌∷◌, In, all, length, is_empty, ok, arith,
}
use brp_spec.Json.{SerdeJson}
use brp_spec.Lockfile.{ProcessAnswers}
use brp_spec.Native.{Utf8, read_native_message, write_native_message}
use brp_spec.Native.Stream.{IsReadable, read_first}
use brp_spec.Spike.{
  IpcMessage, token_response, LockfileData, SpikeCodec, SpikeAnswers, Entry, SpikeDisk, put_entry,
  is_pid_alive,
}
use brp_spec.Spike.Discovery.Found.{HoldsLive, discover_live_instances-IsDiscovered}
use brp_spec.Spike.Bridge.{
  Starting, Running, own_data, lockfile_name, start_bridge, take, buffer_size, answered,
  serve_connection,
}
use brp_spec.Spike.Bootstrap.{
  BootAnswers, BootOutcome, token_request, nm_payload, nm_output, deliver, ask, after_discovery,
  run_bootstrap,
}
use brp_spec.Spike.Started.{mine, StartedBefore, start_bridge-lockfile, own-first}

-- The message fits the buffer of the reader and is read back from its bytes, which are not none.
pub record IsCarried (codec : SpikeCodec) (message : IpcMessage) : Type 0 where
  pub short : length (codec.to_vec message) ≤ buffer_size
  pub filled : is_empty (codec.to_vec message) ≡ false
  pub back : codec.from_slice (codec.to_vec message) ≡ some message

take_all : (n : ℕ) (bytes : List ℕ) → length bytes ≤ n → take n bytes ≡ bytes
take_all zero [] h = refl
take_all zero (b ∷ bs) h = absurd (omega (arith, h))
take_all (suc n) [] h = refl
take_all (suc n) (b ∷ bs) h = ap (◌∷◌ b) (take_all n bs (omega (arith, h)))

module _ (codec : SpikeCodec) (uuid : String) where
  -- The bridge answers the bootstrap's request with its fresh token.
  serve_connection-request :
      IsCarried codec token_request
      → serve_connection codec (some (codec.to_vec token_request)) uuid true
        ≡ answered (codec.to_vec (token_response uuid))
  unfolding serve_connection token_request
  serve_connection-request h =
      rw
        (
          serve_connection,
          take_all buffer_size (codec.to_vec token_request) h.short,
          h.filled,
          h.back,
        )
        refl

  module _ (J : SerdeJson) (utf8 : Utf8) where
    read-nm_output :
        IsReadable J utf8 (nm_payload J uuid)
        → read_native_message J utf8 true (nm_output J utf8 uuid)
          ≡ ([], ok (some (nm_payload J uuid)))
    unfolding nm_output write_native_message
    read-nm_output h = rw append-nil at (read_first J utf8 true (nm_payload J uuid) [] h)

    -- The bootstrap with the bridge as its first candidate and the bridge's answer.
    ask-answered :
        (boot : BootAnswers) (target : LockfileData) (disk : SpikeDisk)
        → boot.connected ≡ true
        → boot.written ≡ true
        → boot.stdout_left ≡ none
        → boot.received ≡ some (codec.to_vec (token_response uuid))
        → IsCarried codec (token_response uuid)
        → ask J utf8 codec boot target disk ≡ record {
          disk = disk;
          requested = some (target.ipc_path, codec.to_vec token_request);
          out = nm_output J utf8 uuid;
          end = ok tt;
        }
    unfolding ask deliver
    ask-answered boot target disk connected written flushed received h =
        rw
          (
            ask,
            connected,
            written,
            received,
            take_all buffer_size (codec.to_vec (token_response uuid)) h.short,
            h.filled,
            h.back,
            deliver,
            flushed,
          )
          refl

    -- From the start of a bridge to the token: after a bridge has started, a bootstrap that finds
    -- its lockfile sends its request to that bridge's endpoint; the bridge answers this request
    -- with its fresh token; and given this answer the bootstrap ends without a panic, and what it
    -- writes to stdout is read, on a little-endian machine, as one native message that holds the
    -- token. The bridge must be alive and, by its clock in seconds of ten digits, have started
    -- after all other live bridges; the directory can be listed, the calls on the connection and on
    -- stdout succeed, the lockfile, the two messages and the native message are read back, and
    -- those fit their readers' limits.
    pub run_bootstrap-delivers :
        (windows : Bool) (system : ProcessAnswers) (me : Starting) (at_start io : SpikeAnswers)
        (boot : BootAnswers) (disk disk' : SpikeDisk) (running : Running)
        → let alive = is_pid_alive windows system in
          let before = unwrap_or disk.lockfile_dir [] in
          let entries =
            put_entry
              (lockfile_name me.pid)
              (codec.to_string_pretty (mine codec windows me))
              before in
          start_bridge codec windows at_start me disk ≡ (disk', ok running)
          → io.opened ≡ true
          → all (λ e. io.listed e.name) entries ≡ true
          → codec.from_str (codec.to_string_pretty (mine codec windows me))
            ≡ some (mine codec windows me)
          → alive me.pid ≡ true
          → me.secs < 10 ^ 10
          → ((e : Entry) (d : LockfileData)
              → In e before
              → e.name ≢ lockfile_name me.pid
              → HoldsLive codec alive d e
              → StartedBefore codec windows me d)
          → IsCarried codec token_request
          → IsCarried codec (token_response uuid)
          → IsReadable J utf8 (nm_payload J uuid)
          → boot.connected ≡ true
          → boot.written ≡ true
          → boot.stdout_left ≡ none
          → boot.received ≡ some (codec.to_vec (token_response uuid))
          → let seen = run_bootstrap J utf8 codec alive io boot disk' in
            (seen.requested ≡ some (running.ipc_path, codec.to_vec token_request))
            × (serve_connection codec (some (codec.to_vec token_request)) uuid true
                ≡ answered (codec.to_vec (token_response uuid)))
            × (seen.end ≡ ok tt)
            × (read_native_message J utf8 true seen.out ≡ ([], ok (some (nm_payload J uuid))))
    unfolding run_bootstrap after_discovery own_data
    run_bootstrap-delivers windows system me at_start io boot disk disk' running started opened
          listed back living clock before asks answers readable connected written flushed received =
        let alive = is_pid_alive windows system in
        let own = mine codec windows me in
        let olds = unwrap_or disk.lockfile_dir [] in
        let entries = put_entry (lockfile_name me.pid) (codec.to_string_pretty own) olds in
        let (there, endpoint) =
          start_bridge-lockfile codec windows me at_start disk disk' running started in
        let (left, found, e, seen) =
          discover_live_instances-IsDiscovered codec alive io disk' entries there opened listed in
        let (others, first) =
          own-first codec windows me alive io olds left found seen back living clock before in
        let disk'' : SpikeDisk = record disk' { lockfile_dir = some left } in
        let run : run_bootstrap J utf8 codec alive io boot disk' ≡ _ =
          ap (after_discovery J utf8 codec boot) (e ∙ ap (λ ds. (disk'', ok ds)) first)
          ∙ ask-answered boot own disk'' connected written flushed received answers in
        (
          ap BootOutcome.requested run ∙ cc endpoint,
          serve_connection-request asks,
          ap BootOutcome.end run,
          ap (λ r. read_native_message J utf8 true (BootOutcome.out r)) run
              ∙ read-nm_output readable,
        )
