-- ===== src/Router/Replies.antt =====
-- bridge/src/router.rs: the shape of every response, and the pending entry of a forwarded request.
use brp_spec.Base.{
  ℕ, String, ◌≡◌, ◌⊎◌, inl, inr, refl, Bool, none, some, List, Bool-cases, Option-cases, Result, ok,
  ◌≢◌, [], err, nat_eq, ltb,
}
use Prim.Native.String.{len}
use brp_spec.Json.{SerdeJson}
use brp_spec.Auth.{ConstantTimeEq, max_message_size}
use brp_spec.Message.{MessageId, Request, Response, ErrorResponse, Codec, success, error}
use brp_spec.Tokens.{TokenManager, Files, DiskAnswers}
use brp_spec.Router.State.{BridgeState}
use brp_spec.Router.Gate.{refusal}
use brp_spec.Router.TokenCalls.{issue_reply, revoke_reply, list_reply}
use brp_spec.Router.Forward.{
  Others, Handled, WaitResult, answered, channel_closed, elapsed, begin_forward, transmit,
  finish_forward, no_extension, ext_message, forward_to_extension,
}
use brp_spec.Router.Handle.{
  Route, issue, revoke, list, initializing, shutting_down, exiting, browsers, other, route,
  handle_other, handle_route, handle_request,
}

-- The response carries the id, and either a result or an error, never both and never neither.
pub record RepliesTo {V : Type 0} (id : MessageId) (r : Response V) : Type 0 where
  pub echoes : r.id ≡ id
  pub one_sided :
      ((v : V) × (r.result ≡ some v) × (r.error ≡ none))
      ⊎ ((r.result ≡ none) × ((e : ErrorResponse V) × (r.error ≡ some e)))

-- What the bridge does not make itself: the request was sent, and the response is the one that came
-- on its channel, as it came.
abbrev pub PassedOn : {S V : Type 0} → Others S V → Handled S V → Type 0
PassedOn others h = (others.wait_result ≡ answered h.response) × (h.sent ≢ [])

abbrev pub IsReply : {S V : Type 0} → Others S V → MessageId → Handled S V → Type 0
IsReply others id h = RepliesTo id h.response ⊎ PassedOn others h

module _ {V : Type 0} where
  success-RepliesTo : (id : MessageId) (v : V) → RepliesTo id (success id v)
  unfolding success
  success-RepliesTo id v = record { echoes = refl; one_sided = inl (v, refl, refl) }

  error-RepliesTo : (id : MessageId) (e : ErrorResponse V) → RepliesTo id (error id e)
  unfolding error
  error-RepliesTo id e = record { echoes = refl; one_sided = inr (refl, (e, refl)) }

module _ (J : SerdeJson) where
  open J use {Value}

  issue-RepliesTo :
      (req : Request Value) (r : Result String String) → RepliesTo req.id (issue_reply J req r)
  unfolding issue_reply
  issue-RepliesTo req (ok t) = success-RepliesTo req.id _
  issue-RepliesTo req (err e) = error-RepliesTo req.id _

  revoke-RepliesTo :
      (req : Request Value) (r : Result Unit String) → RepliesTo req.id (revoke_reply J req r)
  unfolding revoke_reply
  revoke-RepliesTo req (ok t) = success-RepliesTo req.id _
  revoke-RepliesTo req (err e) = error-RepliesTo req.id _

  list-RepliesTo :
      (req : Request Value) (r : Result (List String) String)
      → RepliesTo req.id (list_reply J req r)
  unfolding list_reply
  list-RepliesTo req (ok t) = success-RepliesTo req.id _
  list-RepliesTo req (err e) = error-RepliesTo req.id _

module _ {S : Type 0} (J : SerdeJson) where
  open J use {Value}

  finish-RepliesTo :
      (w : WaitResult Value) (ext_id : ℕ) (req : Request Value) (s : BridgeState S)
      → let r = (finish_forward J w ext_id req s).1 in RepliesTo req.id r ⊎ (w ≡ answered r)
  unfolding finish_forward
  finish-RepliesTo (answered r) ext_id req s = inr refl
  finish-RepliesTo channel_closed ext_id req s = inl (error-RepliesTo req.id _)
  finish-RepliesTo elapsed ext_id req s = inl (error-RepliesTo req.id _)

  transmit-IsReply :
      (others : Others S Value) (sender : S) (ext_id : ℕ) (req : Request Value) (s : BridgeState S)
      → IsReply others req.id (transmit J others sender ext_id req s)
  unfolding transmit
  transmit-IsReply others sender ext_id req s =
      let waited = others.while_waiting (others.while_sending s) in
      elim (Bool-cases (ltb max_message_size (len (ext_message J ext_id req)))) [
        | inl large ↦ rw (large, transmit) (inl (error-RepliesTo req.id _))
        | inr small ↦ elim (Option-cases others.send_error) [
          | inr (e, failed) ↦ rw (small, failed, transmit) (inl (error-RepliesTo req.id _))
          | inl done ↦ elim (finish-RepliesTo others.wait_result ext_id req waited) [
            | inl own ↦ rw (small, done, transmit) (inl own)
            | inr passed ↦ rw (small, done, transmit) (inr (passed, λ h. cc))
          ]
        ]
      ]

  forward-IsReply :
      (others : Others S Value) (s : BridgeState S) (req : Request Value)
      → IsReply others req.id (forward_to_extension J others s req)
  unfolding forward_to_extension no_extension error
  forward-IsReply others s req = elim (Option-cases (begin_forward J others s req)) [
    | inl e ↦ rw (e, forward_to_extension) (inl (error-RepliesTo req.id _))
    | inr ((s', sender, ext_id, browser_id), e) ↦
        rw (e, forward_to_extension) (transmit-IsReply others sender ext_id req s')
  ]

module _ {S : Type 0} (J : SerdeJson) (codec : Codec J) (c : ConstantTimeEq) where
  open J use {Value}

  other-IsReply :
      (allow : Bool) (others : Others S Value) (s : BridgeState S) (req : Request Value)
      → IsReply others req.id (handle_other J codec c allow others s req)
  unfolding handle_other
  other-IsReply allow others s req =
      elim (Option-cases (refusal J allow s.session (others.between_checks s).session req)) [
        | inr (r, e) ↦ rw (e, handle_other) (inl (error-RepliesTo req.id r))
        | inl e ↦
            rw (e, handle_other)
              (forward-IsReply J others (others.before_forward (others.between_checks s)) req)
      ]

  route-IsReply :
      (r : Route) (allow : Bool) (uuid : String) (io : DiskAnswers) (others : Others S Value)
      (s : BridgeState S) (tokens : TokenManager × Files) (req : Request Value)
      → IsReply others req.id (handle_route J codec c r allow uuid io others s tokens req).handled
  unfolding handle_route
  route-IsReply issue allow uuid io others s tokens req = inl (issue-RepliesTo J req _)
  route-IsReply revoke allow uuid io others s tokens req = inl (revoke-RepliesTo J req _)
  route-IsReply list allow uuid io others s tokens req = inl (list-RepliesTo J req _)
  route-IsReply initializing allow uuid io others s tokens req = inl (success-RepliesTo req.id _)
  route-IsReply shutting_down allow uuid io others s tokens req = inl (success-RepliesTo req.id _)
  route-IsReply exiting allow uuid io others s tokens req = inl (success-RepliesTo req.id _)
  route-IsReply browsers allow uuid io others s tokens req = inl (success-RepliesTo req.id _)
  route-IsReply other allow uuid io others s tokens req = other-IsReply allow others s req

  -- Every request is answered on every path. Either the response carries the request's id and
  -- either a result or an error, never both and never neither; or the request was sent to an
  -- extension and the response is the one that came on its channel, which the router passes on as
  -- it came.
  pub handle_request-IsReply :
      (allow : Bool) (uuid : String) (io : DiskAnswers) (others : Others S Value)
      (s : BridgeState S) (tokens : TokenManager × Files) (req : Request Value)
      → IsReply others req.id (handle_request J codec c allow uuid io others s tokens req).handled
  unfolding handle_request
  handle_request-IsReply allow uuid io others s tokens req =
      route-IsReply (route req.method) allow uuid io others s tokens req
