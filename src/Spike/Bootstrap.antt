-- ===== src/Spike/Bootstrap.antt =====
-- spikes/b1-ipc-spike/src/main.rs: run_bootstrap.
use brp_spec.Base.{
  ℕ, ◌%◌, ◌^◌, String, Bool, true, not, Option, none, some, List, [], ◌∷◌, ◌++◌, length, is_empty,
  if◌then◌else◌, Result, ok, err,
}
use brp_spec.Json.{SerdeJson}
use brp_spec.Native.{Utf8, to_ne_bytes}
use brp_spec.Spike.{
  IpcMessage, request_token, token_response, LockfileData, SpikeCodec, SpikeAnswers, SpikeDisk,
  Panic, no_live_instance, connect_failed, connection_closed, invalid_response, unexpected_response,
  stdout_failed,
}
use brp_spec.Spike.Discovery.{discover_live_instances}
use brp_spec.Spike.Bridge.{take, buffer_size}

-- Whether the calls on the connection succeed; the bytes that have arrived when it is read once;
-- and, where a write to stdout or the flush fails, the bytes that got there.
pub record BootAnswers : Type 0 where
  pub connected : Bool
  pub written : Bool
  pub received : Option (List ℕ)
  pub stdout_left : Option (List ℕ)

-- `requested` is the endpoint and the bytes that were sent to it.
pub record BootOutcome : Type 0 where
  pub disk : SpikeDisk
  pub requested : Option (String × List ℕ)
  pub out : List ℕ
  pub end : Result Unit Panic

-- A panic before anything is written to stdout.
abbrev pub stopped : SpikeDisk → Option (String × List ℕ) → Panic → BootOutcome
stopped disk sent p = record { disk = disk; requested = sent; out = []; end = err p }

unfoldable pub token_request : IpcMessage
token_request = request_token "test-browser-id-123"

abbrev pub nm_payload : (J : SerdeJson) → String → J.Value
nm_payload J token = J.object (("token", J.text token) ∷ [])

module _ (J : SerdeJson) (utf8 : Utf8) where
  -- The length as a little-endian u32, and the text.
  unfoldable pub nm_output : String → List ℕ
  unfolding to_ne_bytes
  nm_output token =
      let nm_json = utf8.as_bytes (J.to_string (nm_payload J token)) in
      to_ne_bytes true (length nm_json % 2 ^ 32) ++ nm_json

  -- After the response has been read: the bytes on stdout, and the end.
  unfoldable pub deliver : BootAnswers → Option IpcMessage → List ℕ × Result Unit Panic
  unfolding nm_output
  deliver boot none = ([], err invalid_response)
  deliver boot (some (request_token browser_id)) = ([], err unexpected_response)
  deliver boot (some (token_response token)) = elim boot.stdout_left [
    | none ↦ (nm_output token, ok tt)
    | some left ↦ (left, err stdout_failed)
  ]

  -- The exchange with the first candidate.
  unfoldable pub ask : SpikeCodec → BootAnswers → LockfileData → SpikeDisk → BootOutcome
  unfolding deliver token_request
  ask codec boot target disk =
      let sent = some (target.ipc_path, codec.to_vec token_request) in
      if not boot.connected
      then stopped disk none connect_failed
      else if not boot.written
      then stopped disk none Panic.ipc_write_failed
      else elim boot.received [
        | none ↦ stopped disk sent Panic.ipc_read_failed
        | some bytes ↦
            let buf = take buffer_size bytes in
            if is_empty buf
            then stopped disk sent connection_closed
            else (let r = deliver boot (codec.from_slice buf) in
                record { disk = disk; requested = sent; out = r.0; end = r.1 })
      ]

  unfoldable pub after_discovery :
      SpikeCodec → BootAnswers → SpikeDisk × Result (List LockfileData) Panic → BootOutcome
  unfolding ask
  after_discovery codec boot (disk, err p) = stopped disk none p
  after_discovery codec boot (disk, ok []) = stopped disk none no_live_instance
  after_discovery codec boot (disk, ok (target ∷ others)) = ask codec boot target disk

  unfoldable pub run_bootstrap :
      SpikeCodec → (ℕ → Bool) → SpikeAnswers → BootAnswers → SpikeDisk → BootOutcome
  unfolding discover_live_instances after_discovery
  run_bootstrap codec alive io boot disk =
      after_discovery codec boot (discover_live_instances codec alive io disk)
