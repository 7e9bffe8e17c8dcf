-- ===== src/WsServer/Delivery.antt =====
-- bridge/src/ws_server.rs and bridge/src/router.rs: an extension's answer and the request that
-- waits for it.
use Prim.Native.String.{len}
use mathlib.Core.Path.{refl, ap}
use mathlib.Core.Logic.{inl, inr}
use native.Mathlib.Omega.{arith}
use brp_spec.Base.{
  ℕ, String, none, some, [], ◌∷◌, string_eq, nat_eq, ◌==◌, if◌then◌else◌, Bool-cases, Option-cases,
  ltb, ◌≡◌, ==_refl, ◌∙◌, ◌⊎◌,
}
use brp_spec.Base.Dict
use brp_spec.Json.{SerdeJson}
use brp_spec.Auth.{max_message_size}
use brp_spec.Message.{MessageId, Request, Response, Codec, ResponseLaws}
use brp_spec.Router.State.{BridgeState, get_sender, next_ext_request_id, forget}
use brp_spec.Router.Forward.{
  WaitResult, answered, channel_closed, elapsed, Others, target_browser, begin_forward,
  finish_forward, transmit, ext_message,
}
use brp_spec.WsServer.Extension.{client_response, on_answer}

module _ (J : SerdeJson) (codec : Codec J) where
  open J use {Value}

  -- An answer that converts to a response converts to one with the client's id.
  client_response-id :
      ResponseLaws J codec
      → (browser_id : String) (client_id : MessageId) (value : Value) (resp : Response Value)
      → client_response J codec browser_id client_id value ≡ some resp
      → resp.id ≡ client_id
  unfolding client_response
  client_response-id L browser_id client_id value resp f =
      elim (Option-cases (J.index_set value "id" (codec.message_id client_id))) [
        | inl e ↦ cc (rw (e, client_response) at f)
        | inr (x, e) ↦
            let own = L.get-index_set value (codec.message_id client_id) x "id" e in
            elim (Option-cases (J.get x "result")) [
              | inl n ↦ L.parse_response-id x client_id resp own (rw (e, n, client_response) at f)
              | inr (result, n) ↦
                  let marked = J.object_insert result "browserId" (J.text browser_id) in
                  L.parse_response-id (J.object_insert x "result" marked) client_id resp
                    (L.get-object_insert x marked "result" "id" refl ∙ own)
                    (rw (e, n, client_response) at f)
            ]
      ]

module _ {S : Type 0} (J : SerdeJson) (codec : Codec J) where
  open J use {Value}

  -- Whatever the answer is, it changes the state only by taking its entry away.
  pub on_answer-state :
      (browser_id : String) (ext_id : ℕ) (value : Value) (s : BridgeState S)
      → (on_answer J codec browser_id ext_id value s).state ≡ forget ext_id s
  unfolding on_answer
  on_answer-state browser_id ext_id value s = elim (Option-cases (Dict.get ext_id s.pending)) [
    | inl e ↦ rw (on_answer, e) refl
    | inr ((client_id, channel, asked), e) ↦
        elim (Option-cases (client_response J codec browser_id client_id value)) [
          | inl f ↦ rw (on_answer, e, f) refl
          | inr (resp, f) ↦ rw (on_answer, e, f) refl
        ]
  ]

  -- An answer takes the entry of its number out of `pending` and no other.
  pub on_answer-pending :
      (browser_id : String) (ext_id : ℕ) (value : Value) (s : BridgeState S) (j : ℕ)
      → Dict.get j (on_answer J codec browser_id ext_id value s).state.pending
        ≡ (if ext_id == j then none else Dict.get j s.pending)
  on_answer-pending browser_id ext_id value s j =
      ap (λ (t : BridgeState S). Dict.get j t.pending) (on_answer-state browser_id ext_id value s)
      ∙ Dict.get-remove ext_id j s.pending

  -- What an answer delivers, by the entry of its number.
  on_answer-delivered :
      (browser_id : String) (ext_id : ℕ) (value : Value) (s : BridgeState S) (client_id : MessageId)
      (channel : ℕ) (asked : String) (resp : Response Value)
      → Dict.get ext_id s.pending ≡ some (client_id, channel, asked)
      → client_response J codec browser_id client_id value ≡ some resp
      → (on_answer J codec browser_id ext_id value s).delivered ≡ (channel, resp) ∷ []
  unfolding on_answer
  on_answer-delivered browser_id ext_id value s client_id channel asked resp e f =
      rw (on_answer, e, f) refl

  pub on_answer-unknown :
      (browser_id : String) (ext_id : ℕ) (value : Value) (s : BridgeState S)
      → Dict.get ext_id s.pending ≡ none
      → (on_answer J codec browser_id ext_id value s).delivered ≡ []
  unfolding on_answer
  on_answer-unknown browser_id ext_id value s e = rw (on_answer, e) refl

  -- Of two answers with one number, whichever connections they come from, the second delivers
  -- nothing.
  answered_once :
      (browser_id other_id : String) (ext_id : ℕ) (value value' : Value) (s : BridgeState S)
      → (on_answer J codec other_id ext_id value'
          (on_answer J codec browser_id ext_id value s).state).delivered
        ≡ []
  answered_once browser_id other_id ext_id value value' s =
      on_answer-unknown other_id ext_id value' (on_answer J codec browser_id ext_id value s).state
        (rw (on_answer-pending browser_id ext_id value s ext_id, ==_refl ext_id) refl)

  -- The entry that a request leaves.
  pub begin_forward-inserts :
      (others : Others S Value) (s : BridgeState S) (req : Request Value) (s' : BridgeState S)
      (sender : S) (ext_id : ℕ) (asked : String)
      → begin_forward J others s req ≡ some (s', sender, ext_id, asked)
      → s'.pending ≡ Dict.insert ext_id (req.id, others.channel, asked) s.pending
  unfolding begin_forward next_ext_request_id
  begin_forward-inserts others s req s' sender ext_id asked e =
      ground (arith, e, Option-cases (get_sender others.pick s (target_browser J req)))

  pub begin_forward-pending :
      (others : Others S Value) (s : BridgeState S) (req : Request Value) (s' : BridgeState S)
      (sender : S) (ext_id : ℕ) (asked : String)
      → begin_forward J others s req ≡ some (s', sender, ext_id, asked)
      → (j : ℕ)
      → Dict.get j s'.pending
        ≡ (if ext_id == j then some (req.id, others.channel, asked) else Dict.get j s.pending)
  unfolding begin_forward next_ext_request_id
  begin_forward-pending others s req s' sender ext_id asked e j = ground (
    arith,
    e,
    Option-cases (get_sender others.pick s (target_browser J req)),
    Dict.get-insert ext_id j (req.id, others.channel, asked) s.pending,
  )

  -- A request and its answer: from the state in which `begin_forward` has recorded the request,
  -- whatever other tasks do to the other entries, the first message with the number of the
  -- request that converts to a response delivers that response, once, on the request's channel, and
  -- the response carries the client's own id; the entry is gone afterwards, and every other entry
  -- is as it was. serde must do what it documents of the key `id`.
  pub answer_reaches_request :
      ResponseLaws J codec
      → (others : Others S Value) (s : BridgeState S) (req : Request Value) (s' : BridgeState S)
        (sender : S) (ext_id : ℕ) (asked : String) (later : BridgeState S) (browser_id : String)
        (value : Value) (resp : Response Value)
      → begin_forward J others s req ≡ some (s', sender, ext_id, asked)
      → Dict.get ext_id later.pending ≡ Dict.get ext_id s'.pending
      → client_response J codec browser_id req.id value ≡ some resp
      → ((on_answer J codec browser_id ext_id value later).delivered ≡ (others.channel, resp) ∷ [])
        × (resp.id ≡ req.id)
        × ((j : ℕ)
            → Dict.get j (on_answer J codec browser_id ext_id value later).state.pending
              ≡ (if ext_id == j then none else Dict.get j later.pending))
  answer_reaches_request L others s req s' sender ext_id asked later browser_id value resp e k f =
      let own = begin_forward-pending others s req s' sender ext_id asked e ext_id in
      let entry : Dict.get ext_id later.pending ≡ some (req.id, others.channel, asked) =
        k ∙ own ∙ (rw (==_refl ext_id) refl) in
      (
        on_answer-delivered browser_id ext_id value later req.id others.channel asked resp entry f,
        client_response-id J codec L browser_id req.id value resp f,
        on_answer-pending browser_id ext_id value later,
      )

WaitResult-cases :
    {V : Type 0} (w : WaitResult V)
    → ((r : Response V) × (w ≡ answered r)) ⊎ ((w ≡ channel_closed) ⊎ (w ≡ elapsed))
WaitResult-cases (answered r) = inl (r, refl)
WaitResult-cases channel_closed = inr (inl refl)
WaitResult-cases elapsed = inr (inr refl)

module _ {S : Type 0} (J : SerdeJson) where
  open J use {Value}

  -- That the wait only ends with an answer when the answer has taken the entry.
  abbrev pub AnswerTakesEntry : Others S Value → ℕ → BridgeState S → Type 0
  AnswerTakesEntry others ext_id s =
      (r : Response Value)
      → others.wait_result ≡ answered r
      → Dict.get ext_id (others.while_waiting (others.while_sending s)).pending ≡ none

  -- However a request ends (message too large, sending refused, answered, channel closed or
  -- timed out), its number is no longer in `pending`, provided that a wait which ends with an
  -- answer ends after that answer took the entry.
  transmit-forgets :
      (others : Others S Value) (sender : S) (ext_id : ℕ) (req : Request Value) (s : BridgeState S)
      → AnswerTakesEntry others ext_id s
      → Dict.get ext_id (transmit J others sender ext_id req s).state.pending ≡ none
  unfolding transmit finish_forward
  transmit-forgets others sender ext_id req s taken =
      let message = ext_message J ext_id req in
      let s' = others.while_sending s in
      let after_wait = others.while_waiting s' in
      let gone : (t : BridgeState S) → Dict.get ext_id (forget ext_id t).pending ≡ none =
        λ t. Dict.get-remove ext_id ext_id t.pending ∙ (rw (==_refl ext_id) refl) in
      elim (Bool-cases (ltb max_message_size (len message))) [
        | inl e ↦ rw e (gone s')
        | inr e ↦ elim (Option-cases others.send_error) [
          | inr (m, f) ↦ rw (e, f) (gone s')
          | inl f ↦ elim (WaitResult-cases others.wait_result) [
            | inl (r, g) ↦ rw (e, f, g) (taken r g)
            | inr (inl g) ↦ rw (e, f, g) (gone after_wait)
            | inr (inr g) ↦ rw (e, f, g) (gone after_wait)
          ]
        ]
      ]
