-- ===== src/Native/Framing.antt =====
-- bridge/src/transport/native.rs: what is written is read back, up to the reader's limit.
use brp_spec.Base.{
  ℕ, ◌+◌, ◌*◌, ◌/◌, ◌%◌, ◌^◌, ◌<◌, ◌≡◌, refl, Bool, true, false, some, List, [], ◌∷◌, ◌++◌, length,
  ltb, if◌then◌else◌, ok, err, arith, ◌∙◌,
}
use mathlib.Core.List.{append_assoc}
use brp_spec.Json.{SerdeJson}
use brp_spec.Native.{
  Utf8, to_ne_bytes, from_ne_bytes, max_native_size, read_exact, too_large, read_payload,
  read_native_message, write_native_message,
}

read_exact-append : (xs rest : List ℕ) → read_exact (length xs) (xs ++ rest) ≡ some (xs, rest)
unfolding read_exact
read_exact-append [] rest = refl
read_exact-append (x ∷ xs) rest = rw (read_exact-append xs rest) refl

-- The four bytes put a u32 back together.
bytes_back :
    (n : ℕ)
    → n < 2 ^ 32
    → n % 256 + 256 * (n / 256 % 256) + 65536 * (n / 65536 % 256) + 16777216 * (n / 16777216 % 256)
      ≡ n
bytes_back n h = omega arith

module _ (J : SerdeJson) (utf8 : Utf8) where
  open J use {Value, from_str, to_string}

  read-written :
      (little : Bool) (n : ℕ) (input : List ℕ)
      → n < 2 ^ 32
      → read_native_message J utf8 little (to_ne_bytes little n ++ input) ≡ (
          if ltb max_native_size n
          then (input, err (too_large n))
          else read_payload J utf8 little n input)
  unfolding read_native_message to_ne_bytes from_ne_bytes
  read-written true n input h = rw (bytes_back n h) refl
  read-written false n input h = rw (bytes_back n h) refl

  payload-written :
      (v : Value) (little : Bool) (rest : List ℕ)
      → utf8.from_utf8 (utf8.as_bytes (to_string v)) ≡ some (to_string v)
      → from_str (to_string v) ≡ some v
      → let bytes = utf8.as_bytes (to_string v) in
        read_payload J utf8 little (length bytes) (bytes ++ rest) ≡ (rest, ok (some v))
  unfolding read_payload
  payload-written v little rest decoded parsed =
      rw (read_payload, read_exact-append (utf8.as_bytes (to_string v)) rest, decoded, parsed) refl

  -- Reading after writing, whatever follows in the input: a message of at most 1048576 bytes comes
  -- back as it was and leaves what follows; a longer one, of fewer than 2^32 bytes, is refused with
  -- its length, and its bytes are left in the input. The JSON must be read back from its text, and
  -- the text from its bytes.
  pub read-write_native_message :
      (v : Value) (little : Bool) (rest : List ℕ)
      → utf8.from_utf8 (utf8.as_bytes (to_string v)) ≡ some (to_string v)
      → from_str (to_string v) ≡ some v
      → length (utf8.as_bytes (to_string v)) < 2 ^ 32
      → let bytes = utf8.as_bytes (to_string v) in
        read_native_message J utf8 little (write_native_message J utf8 little v ++ rest) ≡ (
          if ltb max_native_size (length bytes)
          then (bytes ++ rest, err (too_large (length bytes)))
          else (rest, ok (some v)))
  unfolding write_native_message
  read-write_native_message v little rest decoded parsed short =
      let bytes = utf8.as_bytes (to_string v) in
      let fits : length bytes % 2 ^ 32 ≡ length bytes = omega (arith, short) in
      rw (fits, append_assoc (to_ne_bytes little (length bytes)) bytes rest)
        (read-written little (length bytes) (bytes ++ rest) short
          ∙ rw (payload-written v little rest decoded parsed) refl)
