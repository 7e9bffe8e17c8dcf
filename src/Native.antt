-- ===== src/Native.antt =====
-- bridge/src/transport/native.rs and bridge/src/native_msg.rs: native messages, each with its
-- length in four bytes before it. Bytes are numbers; UTF-8 is an interface.
pub mod Framing
pub mod Stdin
pub mod Stream
use Prim.Native.String.{len}
use brp_spec.Base.{
  ℕ, suc, zero, ◌+◌, ◌*◌, ◌/◌, ◌%◌, ◌^◌, String, Bool, not, Option, none, some, List, [], ◌∷◌, ◌++◌,
  and_then, length, ltb, if◌then◌else◌, Result, ok, err,
}
use brp_spec.Json.{SerdeJson}
use brp_spec.Auth.{max_message_size, max_json_depth, validate_json_depth}
use brp_spec.Message.{Codec, Request}

pub record Utf8 : Type 0 where
  pub as_bytes : String → List ℕ
  pub from_utf8 : List ℕ → Option String

-- `u32::to_ne_bytes` and `from_ne_bytes`; the flag says whether the machine is little-endian.
unfoldable pub to_ne_bytes : Bool → ℕ → List ℕ
to_ne_bytes little n =
    let a = n % 256 in
    let b = n / 256 % 256 in
    let c = n / 65536 % 256 in
    let d = n / 16777216 % 256 in if little then a ∷ b ∷ c ∷ d ∷ [] else d ∷ c ∷ b ∷ a ∷ []

unfoldable pub from_ne_bytes : Bool → ℕ → ℕ → ℕ → ℕ → ℕ
from_ne_bytes little a b c d =
    if little
    then a + 256 * b + 65536 * c + 16777216 * d
    else d + 256 * c + 65536 * b + 16777216 * a

abbrev pub max_native_size : ℕ
max_native_size = 1048576

-- `read_exact`: the bytes and what is left, or the end of the input.
unfoldable pub read_exact : ℕ → List ℕ → Option (List ℕ × List ℕ)
read_exact zero input = some ([], input)
read_exact (suc n) [] = none
read_exact (suc n) (b ∷ input) = and_then (read_exact n input) λ r. some (b ∷ r.0, r.1)

pub data ReadError : Type 0 where
  too_large : ℕ → ReadError
  unexpected_eof invalid_utf8 invalid_json : ReadError

module _ (J : SerdeJson) (utf8 : Utf8) (little : Bool) where
  open J use {Value, from_str, to_string}

  -- After the length: the payload and its parsing.
  unfoldable pub read_payload : ℕ → List ℕ → List ℕ × Result (Option Value) ReadError
  unfolding read_exact
  read_payload size input = elim (read_exact size input) [
    | none ↦ ([], err unexpected_eof)
    | some (buf, rest) ↦ elim (utf8.from_utf8 buf) [
      | none ↦ (rest, err invalid_utf8)
      | some text ↦ elim (from_str text) [
        | none ↦ (rest, err invalid_json)
        | some value ↦ (rest, ok (some value))
      ]
    ]
  ]

  -- What is left of the input, and the message; an end within the length is the end of the input.
  unfoldable pub read_native_message : List ℕ → List ℕ × Result (Option Value) ReadError
  unfolding from_ne_bytes read_payload
  read_native_message (a ∷ b ∷ c ∷ d ∷ input) =
      let size = from_ne_bytes little a b c d in
      if ltb max_native_size size then (input, err (too_large size)) else read_payload size input
  read_native_message _ = ([], ok none)

  -- The length is cast to a u32.
  unfoldable pub write_native_message : Value → List ℕ
  unfolding to_ne_bytes
  write_native_message msg =
      let bytes = utf8.as_bytes (to_string msg) in
      to_ne_bytes little (length bytes % 2 ^ 32) ++ bytes

  -- The bytes on stdout for the messages of the notify channel, each with what a write that fails
  -- has left there; the writer goes on after a failure.
  unfoldable pub write_notifications : List (Value × Option (List ℕ)) → List ℕ
  unfolding write_native_message
  write_notifications [] = []
  write_notifications ((msg, none) ∷ rest) = write_native_message msg ++ write_notifications rest
  write_notifications ((msg, some written) ∷ rest) = written ++ write_notifications rest

module _ (J : SerdeJson) (codec : Codec J) where
  open J use {Value, to_string}

  -- A message that has been read: the request it holds, or nothing.
  unfoldable pub accept_message : Value → Option (Request Value)
  accept_message value =
      if ltb max_message_size (len (to_string value))
      then none
      else if not (validate_json_depth J value max_json_depth)
      then none
      else codec.parse_request value

  -- The loop over what the reads return, each with the answer of the request channel: whether it
  -- is still open. The requests that were sent, in order.
  unfoldable pub read_requests :
      List (Result (Option Value) ReadError × Bool) → List (Request Value)
  unfolding accept_message
  read_requests [] = []
  read_requests ((err e, open_channel) ∷ reads) = []
  read_requests ((ok none, open_channel) ∷ reads) = []
  read_requests ((ok (some value), open_channel) ∷ reads) =
      let rest = read_requests reads in
      elim (accept_message value) [
        | none ↦ rest
        | some req ↦ if open_channel then req ∷ rest else []
      ]
