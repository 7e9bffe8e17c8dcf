-- ===== src/WsServer/Disconnect.antt =====
-- bridge/src/ws_server.rs: what is left after an extension's connection.
use mathlib.Core.Logic.{inl, inr, ◌↔◌}
use brp_spec.Base.{
  ℕ, String, Bool, true, false, not, none, List, [], ◌∷◌, map, string_eq, nat_eq, ◌==◌,
  if◌then◌else◌, Bool-cases, ◌≡◌, refl, ==_refl, ◌∙◌, In, In-keep_if, keep_if, any,
}
use brp_spec.Base.Dict
use brp_spec.Json.{SerdeJson}
use brp_spec.Message.{MessageId, Response, Codec}
use brp_spec.Router.State.{BridgeState, add_extension, remove_extension}
use brp_spec.WsServer.Admit.{Frame}
use brp_spec.WsServer.Extension.{
  Effects, asked_of, disconnect_error, disconnect, handle_ext_messages, run_extension,
}

In-map :
    {A B : Type 0} (f : A → B) (y : B) (xs : List A)
    → In y (map f xs) ↔ ((x : A) × In x xs × (y ≡ f x))
In-map f y [] = (λ h. absurd h, λ h. absurd h.1)
In-map f y (x ∷ xs) =
    let ih = In-map f y xs in
    (
      λ h. elim h [ inl e ↦ (x, inl refl, e) | inr m ↦ let (a, n, e) = ih.0 m in (a, inr n, e) ],
      λ (a, m, e). elim m [ inl q ↦ inl (rw (e, q) refl) | inr n ↦ inr (ih.1 (a, n, e)) ],
    )

any-keep_if-not :
    {A : Type 0} (p : A → Bool) (xs : List A) → any p (keep_if (λ x. not (p x)) xs) ≡ false
any-keep_if-not p [] = refl
any-keep_if-not p (x ∷ xs) = elim (Bool-cases (p x)) [
  | inl t ↦ rw t (any-keep_if-not p xs)
  | inr f ↦ rw f (rw f (any-keep_if-not p xs))
]

module _ {S : Type 0} (J : SerdeJson) where
  open J use {Value}

  -- What `disconnect` has done once it ran on `s`.
  pub record IsSettled (browser_id : String) (s : BridgeState S) (e : Effects S Value)
      : Type 0 where
    pub registered :
        (b : String)
        → Dict.get b e.state.extensions
          ≡ (if browser_id == b then none else Dict.get b s.extensions)
    pub pending_kept :
        (entry : ℕ × (MessageId × ℕ × String))
        → In entry e.state.pending ↔ (In entry s.pending × (not (asked_of browser_id entry) ≡ true))
    pub answered :
        (d : ℕ × Response Value)
        → In d e.delivered ↔ (
            (entry : ℕ × (MessageId × ℕ × String)) × In entry s.pending
            × (asked_of browser_id entry ≡ true)
            × (d ≡ (entry.1.1, disconnect_error J entry.1.0)))

  -- A disconnect takes its browser and no other out of the registered ones, takes the requests
  -- that wait for its browser and no others out of the pending ones, and answers exactly those,
  -- each on its own channel with the disconnect error under the client's id.
  pub disconnect-IsSettled :
      (codec : Codec J) (browser_id : String) (s : BridgeState S)
      → IsSettled browser_id s (disconnect J codec browser_id s)
  unfolding disconnect remove_extension
  disconnect-IsSettled codec browser_id s = record {
    registered = λ b. Dict.get-remove browser_id b s.extensions;
    pending_kept = λ entry. In-keep_if (λ e. not (asked_of browser_id e)) entry s.pending;
    answered = λ d.
        let mapped =
          In-map (λ (e : ℕ × (MessageId × ℕ × String)). (e.1.1, disconnect_error J e.1.0)) d
            (keep_if (asked_of browser_id) s.pending) in
        (
          λ h.
              let (x, m, q) = mapped.0 h in
              let (n, a) = (In-keep_if (asked_of browser_id) x s.pending).0 m in (x, n, a, q),
          λ (x, n, a, q). mapped.1 (x, (In-keep_if (asked_of browser_id) x s.pending).1 (n, a), q),
        );
  }

  -- When the connection of an extension is over, however its messages went and whatever other
  -- tasks did meanwhile, its browser is no longer registered and no pending request waits for
  -- it, unless the handling of a message panicked.
  pub run_extension-unregisters :
      (codec : Codec J) (browser_id : String) (sender : S)
      (frames : List ((BridgeState S → BridgeState S) × Frame)) (s : BridgeState S)
      → (handle_ext_messages J codec browser_id frames (add_extension browser_id sender s)).1 ≡ true
      → let left = (run_extension J codec browser_id sender frames s).state in
        (Dict.get browser_id left.extensions ≡ none)
        × (any (asked_of browser_id) left.pending ≡ false)
  unfolding run_extension disconnect
  run_extension-unregisters codec browser_id sender frames s alive =
      let before =
        (handle_ext_messages J codec browser_id frames
          (add_extension browser_id sender s)).0.state in
      let settled = disconnect-IsSettled codec browser_id before in
      rw alive (
        settled.registered browser_id ∙ (rw (==_refl browser_id) refl),
        any-keep_if-not (asked_of browser_id) (remove_extension browser_id before).pending,
      )
