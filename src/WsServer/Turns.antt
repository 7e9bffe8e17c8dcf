-- ===== src/WsServer/Turns.antt =====
-- bridge/src/ws_server.rs: the replies that a client gets.
use Prim.Native.String.{len}
use mathlib.Core.List.{append_assoc}
use brp_spec.Base.{
  ℕ, suc, ◌≤◌, String, ◌≡◌, inl, inr, refl, sym, ap, ◌∙◌, Bool, List, [], ◌∷◌, ◌++◌, arith,
  Bool-cases, Option-cases, length, length-append, ltb,
}
use brp_spec.Json.{SerdeJson}
use brp_spec.Auth.{ConstantTimeEq, max_message_size}
use brp_spec.Message.{Codec}
use brp_spec.WsServer.Admit.{Frame, text_frame, close_frame, other_frame, failed_frame, ended}
use brp_spec.WsServer.Client.{
  Turn, Served, serve_text, serve_frame, meanwhile, handle_client_messages,
}

module _ {S : Type 0} (J : SerdeJson) (codec : Codec J) (c : ConstantTimeEq) (allow : Bool) where
  open J use {Value, from_str}

  -- At most `n` replies more than before, which come after the earlier ones.
  abbrev pub Replied : ℕ → Served S → Served S → Type 0
  Replied n w w' = (more : List String) × (w'.replies ≡ more ++ w.replies) × (length more ≤ n)

  serve_text-Replied :
      (turn : Turn S Value) (message : String) (w : Served S)
      → Replied 1 w (serve_text J codec c allow turn message w).0
  unfolding serve_text
  serve_text-Replied turn message w = elim (Bool-cases (ltb max_message_size (len message))) [
    | inl large ↦ rw (serve_text, large) (_ ∷ [], refl, omega arith)
    | inr small ↦ elim (Option-cases (from_str message)) [
      | inl e ↦ rw (serve_text, small, e) ([], refl, omega arith)
      | inr (v, e) ↦ elim (Option-cases (codec.parse_request v)) [
        | inl f ↦ rw (serve_text, small, e, f) (_ ∷ [], refl, omega arith)
        | inr (req, f) ↦ elim (Bool-cases turn.response_sent) [
          | inl t ↦ rw (serve_text, small, e, f, t) (_ ∷ [], refl, omega arith)
          | inr n ↦ rw (serve_text, small, e, f, n) ([], refl, omega arith)
        ]
      ]
    ]
  ]

  serve_frame-Replied :
      (turn : Turn S Value) (frame : Frame) (w : Served S)
      → Replied 1 w (serve_frame J codec c allow turn frame w).0
  unfolding serve_frame
  serve_frame-Replied turn (text_frame message) w = serve_text-Replied turn message w
  serve_frame-Replied turn close_frame w = ([], refl, omega arith)
  serve_frame-Replied turn other_frame w = ([], refl, omega arith)
  serve_frame-Replied turn failed_frame w = ([], refl, omega arith)
  serve_frame-Replied turn ended w = ([], refl, omega arith)

  Replied-trans : (m : ℕ) (u v w : Served S) → Replied 1 u v → Replied m v w → Replied (suc m) u w
  Replied-trans m u v w (a, e, k) (b, f, l) = (
    b ++ a,
    f ∙ ap (λ r. b ++ r) e ∙ sym (append_assoc b a u.replies),
    omega (arith, length-append b a),
  )

  -- Over the whole loop, whatever the client sends and whatever happens to the requests, the
  -- client gets at most one reply for each frame, and no earlier reply is lost or moved.
  handle_client_messages-Replied :
      (turns : List (Turn S Value)) (w : Served S)
      → Replied (length turns) w (handle_client_messages J codec c allow turns w)
  unfolding handle_client_messages
  handle_client_messages-Replied [] w = ([], refl, omega arith)
  handle_client_messages-Replied (turn ∷ rest) w =
      let first = serve_frame-Replied turn turn.frame (meanwhile J codec c allow turn w) in
      let w' = (serve_frame J codec c allow turn turn.frame (meanwhile J codec c allow turn w)).0 in
      elim (Bool-cases
        (serve_frame J codec c allow turn turn.frame (meanwhile J codec c allow turn w)).1) [
          | inl on ↦
              rw (handle_client_messages, on)
                (Replied-trans (length rest) (meanwhile J codec c allow turn w) w'
                  (handle_client_messages J codec c allow rest w') first
                  (handle_client_messages-Replied rest w'))
          | inr off ↦
              let (more, e, k) = first in rw (handle_client_messages, off) (more, e, omega arith)
        ]
