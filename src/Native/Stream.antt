-- ===== src/Native/Stream.antt =====
-- bridge/src/native_msg.rs: the whole input, from its bytes to the requests.
use brp_spec.Base.{
  ℕ, zero, suc, ap, ◌≤◌, ◌<◌, ◌≡◌, refl, Bool, true, Option, none, some, and_then, List, [], ◌∷◌,
  ◌++◌, length, length-append, map, All, Result, ok, err, arith, Option-cases,
}
use brp_spec.Json.{SerdeJson}
use brp_spec.Message.{Codec, Request}
use brp_spec.Native.{
  Utf8, ReadError, max_native_size, read_native_message, write_native_message, write_notifications,
  accept_message, read_requests, to_ne_bytes,
}
use brp_spec.Native.Framing.{read-write_native_message}

-- A message that is short enough to be read, and that is read back from its text and the text from
-- its bytes.
pub record IsReadable (J : SerdeJson) (utf8 : Utf8) (v : J.Value) : Type 0 where
  pub short : length (utf8.as_bytes (J.to_string v)) ≤ max_native_size
  pub decoded : utf8.from_utf8 (utf8.as_bytes (J.to_string v)) ≡ some (J.to_string v)
  pub parsed : J.from_str (J.to_string v) ≡ some v

module _ (J : SerdeJson) (utf8 : Utf8) (little : Bool) where
  open J use {Value}

  -- Messages one after the other, as the peer writes them.
  unfoldable pub written_messages : List Value → List ℕ
  written_messages [] = []
  written_messages (v ∷ vs) = write_native_message J utf8 little v ++ written_messages vs

  -- The reads of the loop, to the first that ends it; `none` if the fuel runs out.
  unfoldable pub read_all : ℕ → List ℕ → Option (List (Result (Option Value) ReadError))
  read_all zero input = none
  read_all (suc fuel) input =
      let (rest, r) = read_native_message J utf8 little input in
      elim r [
        | err e ↦ some (err e ∷ [])
        | ok message ↦ elim message [
          | none ↦ some (ok none ∷ [])
          | some value ↦ and_then (read_all fuel rest) λ later. some (ok (some value) ∷ later)
        ]
      ]

  pub length-write : (v : Value) → 4 ≤ length (write_native_message J utf8 little v)
  unfolding write_native_message to_ne_bytes
  length-write v = ground arith

  pub read_first :
      (v : Value) (rest : List ℕ)
      → IsReadable J utf8 v
      → read_native_message J utf8 little (write_native_message J utf8 little v ++ rest)
        ≡ (rest, ok (some v))
  read_first v rest h = ground (
    arith,
    h.short,
    read-write_native_message J utf8 v little rest h.decoded h.parsed (omega (arith, h.short)),
  )

  -- Where every write succeeds, the writer task of stdout writes the messages one after the other.
  write_notifications-written_messages :
      (vs : List Value)
      → write_notifications J utf8 little (map (λ v. (v, none)) vs) ≡ written_messages vs
  unfolding write_notifications written_messages
  write_notifications-written_messages [] = refl
  write_notifications-written_messages (v ∷ vs) =
      ap (λ ws. write_native_message J utf8 little v ++ ws)
        (write_notifications-written_messages vs)

  -- What the reads are: the messages, then the end of the input.
  abbrev pub reads_of : List Value → List (Result (Option Value) ReadError)
  reads_of [] = ok none ∷ []
  reads_of (v ∷ vs) = ok (some v) ∷ reads_of vs

  read_all-written_messages :
      (fuel : ℕ) (vs : List Value)
      → length (written_messages vs) < fuel
      → All (IsReadable J utf8) vs
      → read_all fuel (written_messages vs) ≡ some (reads_of vs)
  unfolding read_all written_messages read_native_message
  read_all-written_messages zero vs h readable = absurd (omega (arith, h))
  read_all-written_messages (suc fuel) [] h readable = refl
  read_all-written_messages (suc fuel) (v ∷ vs) h (now, later) =
      let rest = written_messages vs in
      let shorter : length rest < fuel =
        omega
          (arith, h, length-write v, length-append (write_native_message J utf8 little v) rest) in
      ground (arith, read_first v rest now, read_all-written_messages fuel vs shorter later)

module _ (J : SerdeJson) (codec : Codec J) where
  open J use {Value}

  -- The requests of the messages that hold one.
  unfoldable pub requests_in : List Value → List (Request Value)
  requests_in [] = []
  requests_in (v ∷ vs) =
      let later = requests_in vs in
      elim (accept_message J codec v) [ none ↦ later | some req ↦ req ∷ later ]

  abbrev pub while_open :
      List (Result (Option Value) ReadError) → List (Result (Option Value) ReadError × Bool)
  while_open = map (λ r. (r, true))

  read_requests-reads_of :
      (utf8 : Utf8) (little : Bool) (vs : List Value)
      → read_requests J codec (while_open (reads_of J utf8 little vs)) ≡ requests_in vs
  unfolding read_requests requests_in
  read_requests-reads_of utf8 little [] = refl
  read_requests-reads_of utf8 little (v ∷ vs) =
      ground (arith, read_requests-reads_of utf8 little vs, Option-cases (accept_message J codec v))

  -- From the bytes of stdin to the requests: of messages that a peer with the same byte order
  -- writes one after the other, the loop sends on exactly the requests of those within the limits
  -- that parse, in their order, while the channel is open. Each message is of at most 1048576 bytes
  -- and is read back from its text, and the text from its bytes.
  pub read_requests-written_messages :
      (utf8 : Utf8) (little : Bool) (vs : List Value)
      → All (IsReadable J utf8) vs
      → let input = written_messages J utf8 little vs in
        (reads : List (Result (Option Value) ReadError)) × (read_all J utf8 little
            (suc (length input))
            input
          ≡ some reads)
        × (read_requests J codec (while_open reads) ≡ requests_in vs)
  read_requests-written_messages utf8 little vs readable =
      let input = written_messages J utf8 little vs in
      (
        reads_of J utf8 little vs,
        read_all-written_messages J utf8 little (suc (length input)) vs (omega arith) readable,
        read_requests-reads_of utf8 little vs,
      )
