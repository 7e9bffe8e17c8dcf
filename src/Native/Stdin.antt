-- ===== src/Native/Stdin.antt =====
-- bridge/src/native_msg.rs: what the loop over stdin lets through.
use brp_spec.Base.{
  ◌≡◌, inl, inr, refl, Bool, true, false, Option, none, some, List, [], ◌∷◌, Option-cases, In,
  arith, Result, ok, err, ◌≤◌,
}
use Prim.Native.String.{len}
use brp_spec.Json.{SerdeJson}
use brp_spec.Auth.{validate_json_depth, max_json_depth, max_message_size}
use brp_spec.Message.{Codec, Request}
use brp_spec.Native.{ReadError, accept_message, read_requests}

module _ (J : SerdeJson) (codec : Codec J) where
  open J use {Value, to_string}

  accepted :
      (value : Value) (req : Request Value)
      → accept_message J codec value ≡ some req
      → (len (to_string value) ≤ max_message_size)
        × (validate_json_depth J value max_json_depth ≡ true)
        × (codec.parse_request value ≡ some req)
  unfolding accept_message
  accepted value req h = (ground (arith, h), ground (arith, h), ground (arith, h))

  -- A value that was read while the channel was open, is within the limits and parses to `req`.
  abbrev pub IsValidated : List (Result (Option Value) ReadError × Bool) → Request Value → Type 0
  IsValidated reads req =
      (value : Value) × In (ok (some value), true) reads
      × (len (to_string value) ≤ max_message_size)
      × (validate_json_depth J value max_json_depth ≡ true)
      × (codec.parse_request value ≡ some req)

  from_later :
      (value : Value) (open_channel : Bool) (reads : List (Result (Option Value) ReadError × Bool))
      (req : Request Value)
      → IsValidated reads req
      → IsValidated ((ok (some value), open_channel) ∷ reads) req
  from_later value open_channel reads req (v, n, small, shallow, parsed) =
      (v, inr n, small, shallow, parsed)

  -- Every request that the loop over stdin sends on was read as a value whose text is within the
  -- size limit, which passed the depth test, and from which the request was parsed.
  pub read_requests-IsValidated :
      (reads : List (Result (Option Value) ReadError × Bool)) (req : Request Value)
      → In req (read_requests J codec reads)
      → IsValidated reads req
  unfolding read_requests
  read_requests-IsValidated [] req m = absurd m
  read_requests-IsValidated ((err e, open_channel) ∷ reads) req m = absurd m
  read_requests-IsValidated ((ok none, open_channel) ∷ reads) req m = absurd m
  read_requests-IsValidated ((ok (some value), true) ∷ reads) req m =
      elim (Option-cases (accept_message J codec value)) [
        | inl e ↦
            from_later value true reads req
              (read_requests-IsValidated reads req (rw (read_requests, e) at m))
        | inr (sent, e) ↦ elim (rw (read_requests, e) at m) [
          | inl q ↦
              let (small, shallow, parsed) = accepted value sent e in
              (value, inl refl, small, shallow, rw q parsed)
          | inr later ↦ from_later value true reads req (read_requests-IsValidated reads req later)
        ]
      ]
  read_requests-IsValidated ((ok (some value), false) ∷ reads) req m =
      elim (Option-cases (accept_message J codec value)) [
        | inl e ↦
            from_later value false reads req
              (read_requests-IsValidated reads req (rw (read_requests, e) at m))
        | inr (sent, e) ↦ absurd (rw (read_requests, e) at m)
      ]
