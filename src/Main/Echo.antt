-- ===== src/Main/Echo.antt =====
-- bridge/src/main.rs: `run_echo`, which writes every native message back.
pub mod Ends
use brp_spec.Base.{
  ℕ, zero, suc, ◌%◌, ◌^◌, Bool, true, Option, none, some, and_then, List, [], ◌++◌, length,
  if◌then◌else◌, Result, ok, err,
}
use brp_spec.Json.{SerdeJson}
use brp_spec.Native.{Utf8, ReadError, to_ne_bytes, read_native_message}

-- How the loop ends.
pub data EchoEnd : Type 0 where
  at_eof : EchoEnd
  read_failed : ReadError → EchoEnd
  write_failed : EchoEnd

module _ (J : SerdeJson) (utf8 : Utf8) (little : Bool) where
  open J use {Value, to_string}

  -- The length is written in little-endian order, whatever the machine.
  unfoldable pub echo_frame : Value → List ℕ
  unfolding to_ne_bytes
  echo_frame value =
      let bytes = utf8.as_bytes (to_string value) in
      to_ne_bytes true (length bytes % 2 ^ 32) ++ bytes

  -- Fuel, what `stdout` answers to the writes from the i-th message on, and the input. The bytes
  -- written by the writes that succeeded, and the end; `none` if the fuel runs out.
  unfoldable pub echo_loop : ℕ → (ℕ → Bool) → ℕ → List ℕ → Option (List ℕ × EchoEnd)
  unfolding echo_frame
  echo_loop zero writes i input = none
  echo_loop (suc fuel) writes i input =
      let (rest, r) = read_native_message J utf8 little input in
      elim r [
        | err e ↦ some ([], read_failed e)
        | ok message ↦ elim message [
          | none ↦ some ([], at_eof)
          | some value ↦
              let later = echo_loop fuel writes (suc i) rest in
              if writes i
              then and_then later (λ e. some (echo_frame value ++ e.0, e.1))
              else some ([], write_failed)
        ]
      ]

  -- A message takes four bytes at least, so the length of the input is fuel enough.
  unfoldable pub run_echo : (ℕ → Bool) → List ℕ → Option (List ℕ × EchoEnd)
  unfolding echo_loop
  run_echo writes input = echo_loop (suc (length input)) writes 0 input
