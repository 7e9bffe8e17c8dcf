-- ===== src/Examples/Process.antt =====
-- Command lines, the lockfile and native messages at concrete inputs.
use brp_spec.Base.{
  suc, false, ℕ, ◌<◌, ◌^◌, String, Bool, ◌≡◌, inl, refl, true, false, Option, none, some, List, [],
  ◌∷◌, ◌++◌, In, arith, Result, ok, starts_with, nat_eq, ◌==◌, length,
}
use brp_spec.Auth.{validate_json_depth}
use brp_spec.Message.{Codec, Request, number, json_rpc_version}
use brp_spec.Mode.{echo, parse_mode, parse_args, apply_arg, unless_echo}
use brp_spec.Lockfile.{LockData, LockCodec, Disk, LockAnswers, write_lockfile, acquire}
use brp_spec.Lockfile.Exclusion.{IsHeld, held}
use brp_spec.Lockfile.{write_failed}
use brp_spec.Lockfile.Steps.{Contender, looking, holding, failed, interleave}
use brp_spec.Lockfile.Steps.Interleaved.{Waits, interleave-exclusive}
use brp_spec.Lockfile.Steps.Race.{acquire_race}
use brp_spec.Native.{
  Utf8, ReadError, read_native_message, write_native_message, accept_message, read_requests,
}
use brp_spec.Native.Framing.{read-write_native_message}
use brp_spec.Native.Stream.{
  IsReadable, written_messages, read_all, while_open, requests_in, read_requests-written_messages,
}
use brp_spec.Native.Stdin.{IsValidated, read_requests-IsValidated}
use brp_spec.Examples.Values.{Value, json, codec, tokens_value, register_value}

abbrev arguments : List String
arguments = "--mode=bootstrap" ∷ "--echo" ∷ "manifest.json" ∷ []

arguments_parsed : parse_mode ("brp-bridge" ∷ arguments) ≡ ok echo
unfolding parse_mode parse_args apply_arg unless_echo starts_with
arguments_parsed = refl

-- A coding that knows one bridge.

abbrev first_bridge : LockData
first_bridge = record { pid = 41; port = 9817; token = none }

abbrev second_bridge : LockData
second_bridge = record { pid = 52; port = 9900; token = none }

abbrev lock_codec : LockCodec
lock_codec = record { to_vec = λ d. "41 9817"; from_slice = λ s. some first_bridge }

abbrev fine : LockAnswers
fine = record {
  readable = true;
  removed = true;
  dir_made = true;
  written = true;
  synced = true;
  renamed = true;
  partial = none;
}

abbrev no_files : Disk
no_files = record { lockfile = none; tmp_file = none }

abbrev held_disk : Disk
held_disk = record { lockfile = some "41 9817"; tmp_file = none }

abbrev is_41 : ℕ → Bool
is_41 pid = pid == 41

first_started : acquire lock_codec is_41 first_bridge fine no_files ≡ (held_disk, ok tt)
unfolding acquire write_lockfile
first_started = refl

abbrev none_alive : ℕ → Bool
none_alive pid = false

not-IsHeld : ¬ IsHeld lock_codec none_alive fine held_disk
not-IsHeld (held owner e living) = cc

-- An encoding for one text.

abbrev utf8 : Utf8
utf8 = record {
  as_bytes = λ s. 116 ∷ 111 ∷ 107 ∷ 101 ∷ 110 ∷ 115 ∷ [];
  from_utf8 = λ bytes. some "tokens";
}

few_bytes : length (utf8.as_bytes "tokens") < 2 ^ 32
few_bytes = omega arith

read-write_native_message_example :
    read_native_message json utf8 true (write_native_message json utf8 true tokens_value ++ 7 ∷ [])
    ≡ (7 ∷ [], ok (some tokens_value))
read-write_native_message_example =
    read-write_native_message json utf8 tokens_value true (7 ∷ []) refl refl few_bytes

-- A coding that takes any value for one request.

abbrev request : Request Value
request = record { jsonrpc = json_rpc_version; id = number 1; method = "tab.list"; params = none }

abbrev request_codec : Codec json
request_codec = record codec { parse_request = λ v. some request }

abbrev reads : List (Result (Option Value) ReadError × Bool)
reads = (ok (some register_value), true) ∷ (ok none, true) ∷ []

request_passed : In request (read_requests json request_codec reads)
unfolding read_requests accept_message validate_json_depth
request_passed = inl refl

read_requests-IsValidated_example : IsValidated json request_codec reads request
read_requests-IsValidated_example =
    read_requests-IsValidated json request_codec reads request request_passed

-- Two messages on stdin.
abbrev two_messages : List Value
two_messages = tokens_value ∷ tokens_value ∷ []

tokens-IsReadable : IsReadable json utf8 tokens_value
tokens-IsReadable = record { short = omega arith; decoded = refl; parsed = refl }

read_requests-written_messages_example :
    let input = written_messages json utf8 false two_messages in
    (reads : List (Result (Option Value) ReadError)) × (read_all json utf8 false
        (suc (length input))
        input
      ≡ some reads)
    × (read_requests json request_codec (while_open json request_codec reads)
        ≡ requests_in json request_codec two_messages)
read_requests-written_messages_example =
    read_requests-written_messages json request_codec utf8 false two_messages
      (tokens-IsReadable, (tokens-IsReadable, tt))

-- Bridges that start beside the first one, and beside each other.
abbrev starting : ℕ → Contender
starting i = record { own = second_bridge; alive = is_41; io = fine }

interleave-exclusive_example :
    let r = interleave lock_codec starting (52 ∷ 53 ∷ 53 ∷ 52 ∷ []) held_disk (λ k. looking) in
    (r.0 ≡ held_disk) × Waits first_bridge (r.1 53)
interleave-exclusive_example =
    interleave-exclusive lock_codec first_bridge starting is_41 fine no_files held_disk
      (52 ∷ 53 ∷ 53 ∷ 52 ∷ []) 53 refl first_started (λ k. (refl, refl))

acquire_race_example :
    let calls : List ℕ = 52 ∷ 53 ∷ 52 ∷ 52 ∷ 52 ∷ 53 ∷ 53 ∷ 53 ∷ [] in
    let apart = interleave lock_codec starting calls no_files (λ k. looking) in
    let mixed =
      interleave lock_codec starting
        (52 ∷ 53 ∷ 52 ∷ 53 ∷ 52 ∷ 52 ∷ 53 ∷ [])
        no_files
        (λ k. looking) in
    (apart.1 52 ≡ holding)
    × (apart.1 53 ≡ holding)
    × (apart.0.lockfile ≡ some "41 9817")
    × (mixed.1 52 ≡ holding)
    × (mixed.1 53 ≡ failed write_failed)
    × (mixed.0.lockfile ≡ some "41 9817")
acquire_race_example =
    acquire_race lock_codec starting 52 53 (λ h. absurd (omega (arith, h))) no_files refl
      (refl, refl, refl, refl) (refl, refl, refl, refl)
