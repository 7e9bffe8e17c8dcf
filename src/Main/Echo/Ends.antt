-- ===== src/Main/Echo/Ends.antt =====
-- bridge/src/main.rs: the echo loop ends, and what it writes.
use brp_spec.Base.{
  All, ℕ, zero, suc, ◌≤◌, ◌<◌, Bool, true, Option, none, some, List, [], ◌∷◌, ◌++◌, length,
  length-append, Result, ok, err, ◌≡◌, inl, inr, refl, Bool-cases, Option-cases, arith, ltb,
}
use brp_spec.Json.{SerdeJson}
use brp_spec.Native.{
  Utf8, ReadError, from_ne_bytes, read_native_message, write_native_message, read_payload,
  read_exact, max_native_size,
}
use brp_spec.Native.Stream.{IsReadable, written_messages, length-write, read_first}
use brp_spec.Main.Echo.{EchoEnd, at_eof, read_failed, write_failed, echo_frame, echo_loop, run_echo}

length-read_exact :
    (n : ℕ) (input buf rest : List ℕ)
    → read_exact n input ≡ some (buf, rest)
    → length rest ≤ length input
unfolding read_exact
length-read_exact zero input buf rest h = ground (arith, h)
length-read_exact (suc n) [] buf rest h = cc
length-read_exact (suc n) (b ∷ input) buf rest h = elim (Option-cases (read_exact n input)) [
  | inl e ↦ ground (arith, h, e)
  | inr ((buf', rest'), e) ↦ ground (arith, h, e, length-read_exact n input buf' rest')
]

module _ (J : SerdeJson) (utf8 : Utf8) (little : Bool) where
  open J use {Value, from_str, to_string}

  length-read_payload :
      (n : ℕ) (input rest : List ℕ) (v : Value)
      → read_payload J utf8 little n input ≡ (rest, ok (some v))
      → length rest ≤ length input
  unfolding read_payload
  length-read_payload n input rest v h = elim (Option-cases (read_exact n input)) [
    | inl e ↦ ground (arith, h, e)
    | inr ((buf, left), e) ↦
        ground (arith, h, e, length-read_exact n input buf left, Option-cases (utf8.from_utf8 buf))
  ]

  -- A message read leaves less to read.
  length-read_native_message :
      (input rest : List ℕ) (v : Value)
      → read_native_message J utf8 little input ≡ (rest, ok (some v))
      → length rest < length input
  unfolding read_native_message
  length-read_native_message (a ∷ b ∷ c ∷ d ∷ input) rest v h =
      elim (Bool-cases (ltb max_native_size (from_ne_bytes little a b c d))) [
        | inl t ↦ ground (arith, h, t)
        | inr f ↦
            ground (arith, h, f, length-read_payload (from_ne_bytes little a b c d) input rest v)
      ]
  length-read_native_message [] rest v h = cc
  length-read_native_message (a ∷ []) rest v h = cc
  length-read_native_message (a ∷ b ∷ []) rest v h = cc
  length-read_native_message (a ∷ b ∷ c ∷ []) rest v h = cc

  abbrev Returns : ℕ → (ℕ → Bool) → ℕ → List ℕ → Type 0
  Returns fuel writes i input =
      (r : List ℕ × EchoEnd) × (echo_loop J utf8 little fuel writes i input ≡ some r)

  -- One round, for each result of the read.
  echo_round-Returns :
      (fuel : ℕ) (writes : ℕ → Bool) (i : ℕ) (input : List ℕ)
      (m : List ℕ × Result (Option Value) ReadError)
      → read_native_message J utf8 little input ≡ m
      → ((rest : List ℕ) → length rest < length input → Returns fuel writes (suc i) rest)
      → Returns (suc fuel) writes i input
  unfolding echo_loop
  echo_round-Returns fuel writes i input (rest, err e) eq later =
      (([], read_failed e), rw (eq, echo_loop) refl)
  echo_round-Returns fuel writes i input (rest, ok none) eq later =
      (([], at_eof), rw (eq, echo_loop) refl)
  echo_round-Returns fuel writes i input (rest, ok (some v)) eq later =
      elim (Bool-cases (writes i)) [
        | inr f ↦ (([], write_failed), rw (eq, f, echo_loop) refl)
        | inl t ↦
            let (e, ends) = later rest (length-read_native_message input rest v eq) in
            ((echo_frame J utf8 little v ++ e.0, e.1), ground (arith, eq, t, ends))
      ]

  echo_loop-Returns :
      (fuel : ℕ) (writes : ℕ → Bool) (i : ℕ) (input : List ℕ)
      → length input < fuel
      → Returns fuel writes i input
  echo_loop-Returns zero writes i input h = absurd (omega (arith, h))
  echo_loop-Returns (suc fuel) writes i input h =
      echo_round-Returns fuel writes i input (read_native_message J utf8 little input) refl
        (λ rest shorter. echo_loop-Returns fuel writes (suc i) rest (omega (arith, shorter, h)))

  -- The loop ends, whatever the input is and whatever the writes answer.
  pub run_echo-returns :
      (writes : ℕ → Bool) (input : List ℕ)
      → (r : List ℕ × EchoEnd) × (run_echo J utf8 little writes input ≡ some r)
  unfolding run_echo
  run_echo-returns writes input =
      echo_loop-Returns (suc (length input)) writes 0 input (omega arith)

module _ (J : SerdeJson) (utf8 : Utf8) where
  open J use {Value, from_str, to_string}

  echo_frame-write : (v : Value) → echo_frame J utf8 true v ≡ write_native_message J utf8 true v
  unfolding echo_frame write_native_message
  echo_frame-write v = refl

  echo_loop-written_messages :
      (fuel : ℕ) (writes : ℕ → Bool) (i : ℕ) (vs : List Value)
      → ((n : ℕ) → writes n ≡ true)
      → length (written_messages J utf8 true vs) < fuel
      → All (IsReadable J utf8) vs
      → echo_loop J utf8 true fuel writes i (written_messages J utf8 true vs)
        ≡ some (written_messages J utf8 true vs, at_eof)
  unfolding echo_loop written_messages read_native_message
  echo_loop-written_messages zero writes i vs fine h short = absurd (omega (arith, h))
  echo_loop-written_messages (suc fuel) writes i [] fine h short = refl
  echo_loop-written_messages (suc fuel) writes i (v ∷ vs) fine h (now, later) =
      let rest = written_messages J utf8 true vs in
      let frame = write_native_message J utf8 true v in
      let shorter : length rest < fuel =
        omega (arith, h, length-write J utf8 true v, length-append frame rest) in
      ground (
        arith,
        read_first J utf8 true v rest now,
        fine i,
        echo_loop-written_messages fuel writes (suc i) vs fine shorter later,
        echo_frame-write v,
      )

  -- On a little-endian machine, messages of at most 1048576 bytes each come back byte for byte as
  -- they were sent, and the end of the input ends the loop, where every write succeeds and each
  -- message is read back from its text and the text from its bytes.
  run_echo-written_messages :
      (writes : ℕ → Bool) (vs : List Value)
      → ((n : ℕ) → writes n ≡ true)
      → All (IsReadable J utf8) vs
      → run_echo J utf8 true writes (written_messages J utf8 true vs)
        ≡ some (written_messages J utf8 true vs, at_eof)
  unfolding run_echo
  run_echo-written_messages writes vs fine readable =
      let input = written_messages J utf8 true vs in
      echo_loop-written_messages (suc (length input)) writes 0 vs fine (omega arith) readable
