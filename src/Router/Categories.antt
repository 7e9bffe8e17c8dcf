-- ===== src/Router/Categories.antt =====
-- bridge/src/router.rs against bridge/src/protocol/message.rs: the category that an error response
-- carries is the one that `error_category` gives to its code.
use Prim.Native.String.{len}
use brp_spec.Base.{
  ℕ, String, ◌≡◌, ◌⊎◌, inl, inr, refl, Bool, true, false, not, ◌&&◌, Option, none, some, List, [],
  Bool-cases, Option-cases, Result, ok, err, ltb, contains, contains_text, string_eq, ◌==◌,
}
use brp_spec.Json.{SerdeJson}
use brp_spec.Auth.{ConstantTimeEq, max_message_size, allowed_methods}
use brp_spec.Message.{
  MessageId, Request, Response, ErrorResponse, Codec, success, error, internal_error, json_error,
  error_category,
}
use brp_spec.Session.{Session, is_ready}
use brp_spec.Tokens.{TokenManager, Files, DiskAnswers}
use brp_spec.Router.State.{BridgeState}
use brp_spec.Router.Replies.{PassedOn}
use brp_spec.Router.Gate.{refusal, method_allowed, navigates, url_blocked}
use brp_spec.Router.TokenCalls.{auth_error, issue_reply, revoke_reply, list_reply}
use brp_spec.Router.Forward.{
  Others, Handled, WaitResult, answered, channel_closed, elapsed, begin_forward, transmit,
  finish_forward, no_extension, ext_message, forward_to_extension,
}
use brp_spec.Router.Handle.{
  Route, issue, revoke, list, initializing, shutting_down, exiting, browsers, other, route,
  handle_other, handle_route, handle_request,
}

module _ (J : SerdeJson) where
  open J use {Value}

  -- The data of an error: its code with that code's category.
  abbrev pub IsCategorised : ErrorResponse Value → Type 0
  IsCategorised e =
      (code : String) × (retriable : Bool) × (more : List (String × Value)) × (e.error_data
        ≡ some (json_error J code (error_category code) retriable more))

  -- No error, or one of that kind.
  abbrev pub IsClassified : Response Value → Type 0
  IsClassified r =
      (r.error ≡ none) ⊎ ((e : ErrorResponse Value) × (r.error ≡ some e) × IsCategorised e)

  abbrev pub IsClassifiedReply : {S : Type 0} → Others S Value → Handled S Value → Type 0
  IsClassifiedReply others h = IsClassified h.response ⊎ PassedOn others h

  error-IsClassified :
      (id : MessageId) (e : ErrorResponse Value) → IsCategorised e → IsClassified (error id e)
  unfolding error
  error-IsClassified id e h = inr (e, refl, h)

  auth_error-IsClassified :
      (req : Request Value) (message code : String)
      → error_category code ≡ "AUTH"
      → IsClassified (auth_error J req message code)
  unfolding auth_error
  auth_error-IsClassified req message code h =
      error-IsClassified req.id _ (code, false, [], rw h refl)

  issue_reply-IsClassified :
      (req : Request Value) (r : Result String String) → IsClassified (issue_reply J req r)
  unfolding issue_reply error_category success
  issue_reply-IsClassified req (ok t) = inl refl
  issue_reply-IsClassified req (err e) =
      auth_error-IsClassified req e "BRP_MASTER_TOKEN_REQUIRED" refl

  revoke_reply-IsClassified :
      (req : Request Value) (r : Result Unit String) → IsClassified (revoke_reply J req r)
  unfolding revoke_reply error_category success
  revoke_reply-IsClassified req (ok t) = inl refl
  revoke_reply-IsClassified req (err e) = elim (Bool-cases (contains_text e "Master token")) [
    | inl t ↦ rw (t, revoke_reply) (auth_error-IsClassified req e "BRP_MASTER_TOKEN_REQUIRED" refl)
    | inr f ↦ rw (f, revoke_reply) (auth_error-IsClassified req e "BRP_TOKEN_REVOKE_FAILED" refl)
  ]

  list_reply-IsClassified :
      (req : Request Value) (r : Result (List String) String) → IsClassified (list_reply J req r)
  unfolding list_reply error_category success
  list_reply-IsClassified req (ok t) = inl refl
  list_reply-IsClassified req (err e) =
      auth_error-IsClassified req e "BRP_MASTER_TOKEN_REQUIRED" refl

  internal_error-IsClassified :
      (id : MessageId) (msg : String) → IsClassified (internal_error J id msg)
  unfolding internal_error error_category
  internal_error-IsClassified id msg =
      error-IsClassified id _ ("BRP_INTERNAL_ERROR", false, [], refl)

  no_extension-IsClassified : (req : Request Value) → IsClassified (no_extension J req)
  unfolding no_extension error_category
  no_extension-IsClassified req =
      error-IsClassified req.id _ ("BRP_EXTENSION_DISCONNECTED", true, _, refl)

  -- That a refusal, if there is one, is categorised.
  abbrev pub RefusesCategorised : Option (ErrorResponse Value) → Type 0
  RefusesCategorised none = Unit
  RefusesCategorised (some e) = IsCategorised e

  refusal-RefusesCategorised :
      (allow : Bool) (first second : Session) (req : Request Value)
      → RefusesCategorised (refusal J allow first second req)
  unfolding refusal error_category
  refusal-RefusesCategorised allow first second req =
      elim (Bool-cases (not (contains allowed_methods req.method))) [
        | inl t ↦ rw (refusal, t) ("BRP_METHOD_NOT_FOUND", false, [], refl)
        | inr known ↦ elim (Bool-cases (is_ready first && not (method_allowed first req.method))) [
          | inl t ↦ rw (refusal, known, t) ("BRP_CAPABILITY_NOT_SUPPORTED", false, _, refl)
          | inr able ↦ elim (Bool-cases (navigates req.method && url_blocked J req.params)) [
            | inl t ↦ rw (refusal, known, able, t) ("BRP_URL_SCHEME_BLOCKED", false, [], refl)
            | inr safe ↦ elim (Bool-cases (req.method == "script.execute" && not allow)) [
              | inl t ↦ rw (refusal, known, able, safe, t) ("BRP_PERMISSION_DENIED", false, _, refl)
              | inr may ↦ elim (Bool-cases (not (is_ready second))) [
                | inl t ↦
                    rw (refusal, known, able, safe, may, t)
                      ("BRP_SESSION_UNINITIALIZED", false, [], refl)
                | inr woken ↦ rw (refusal, known, able, safe, may, woken) tt
              ]
            ]
          ]
        ]
      ]

module _ {S : Type 0} (J : SerdeJson) where
  open J use {Value}

  finish_forward-IsClassified :
      (w : WaitResult Value) (ext_id : ℕ) (req : Request Value) (s : BridgeState S)
      → let r = (finish_forward J w ext_id req s).1 in IsClassified J r ⊎ (w ≡ answered r)
  unfolding finish_forward error_category
  finish_forward-IsClassified (answered r) ext_id req s = inr refl
  finish_forward-IsClassified channel_closed ext_id req s =
      inl (internal_error-IsClassified J req.id _)
  finish_forward-IsClassified elapsed ext_id req s =
      inl (error-IsClassified J req.id _ ("BRP_TIMEOUT", true, [], refl))

  transmit-IsClassifiedReply :
      (others : Others S Value) (sender : S) (ext_id : ℕ) (req : Request Value) (s : BridgeState S)
      → IsClassifiedReply J others (transmit J others sender ext_id req s)
  unfolding transmit error_category
  transmit-IsClassifiedReply others sender ext_id req s =
      let waited = others.while_waiting (others.while_sending s) in
      elim (Bool-cases (ltb max_message_size (len (ext_message J ext_id req)))) [
        | inl large ↦
            rw (large, transmit)
              (inl (error-IsClassified J req.id _ ("BRP_MESSAGE_TOO_LARGE", false, _, refl)))
        | inr small ↦ elim (Option-cases others.send_error) [
          | inr (e, failed) ↦
              rw (small, failed, transmit) (inl (internal_error-IsClassified J req.id _))
          | inl done ↦ elim (finish_forward-IsClassified others.wait_result ext_id req waited) [
            | inl own ↦ rw (small, done, transmit) (inl own)
            | inr passed ↦ rw (small, done, transmit) (inr (passed, λ h. cc))
          ]
        ]
      ]

  forward-IsClassifiedReply :
      (others : Others S Value) (s : BridgeState S) (req : Request Value)
      → IsClassifiedReply J others (forward_to_extension J others s req)
  unfolding forward_to_extension
  forward-IsClassifiedReply others s req = elim (Option-cases (begin_forward J others s req)) [
    | inl e ↦ rw (e, forward_to_extension) (inl (no_extension-IsClassified J req))
    | inr ((s', sender, ext_id, browser_id), e) ↦
        rw (e, forward_to_extension) (transmit-IsClassifiedReply others sender ext_id req s')
  ]

module _ {S : Type 0} (J : SerdeJson) (codec : Codec J) (c : ConstantTimeEq) where
  open J use {Value}

  other-IsClassifiedReply :
      (allow : Bool) (others : Others S Value) (s : BridgeState S) (req : Request Value)
      → IsClassifiedReply J others (handle_other J codec c allow others s req)
  unfolding handle_other
  other-IsClassifiedReply allow others s req =
      let s' = others.between_checks s in
      let kind = refusal-RefusesCategorised J allow s.session s'.session req in
      elim (Option-cases (refusal J allow s.session s'.session req)) [
        | inr (r, e) ↦ rw (e, handle_other) (inl (error-IsClassified J req.id r (rw e at kind)))
        | inl e ↦
            rw (e, handle_other) (forward-IsClassifiedReply J others (others.before_forward s') req)
      ]

  route-IsClassifiedReply :
      (r : Route) (allow : Bool) (uuid : String) (io : DiskAnswers) (others : Others S Value)
      (s : BridgeState S) (tokens : TokenManager × Files) (req : Request Value)
      → IsClassifiedReply J others
          (handle_route J codec c r allow uuid io others s tokens req).handled
  unfolding handle_route success
  route-IsClassifiedReply issue allow uuid io others s tokens req =
      inl (issue_reply-IsClassified J req _)
  route-IsClassifiedReply revoke allow uuid io others s tokens req =
      inl (revoke_reply-IsClassified J req _)
  route-IsClassifiedReply list allow uuid io others s tokens req =
      inl (list_reply-IsClassified J req _)
  route-IsClassifiedReply initializing allow uuid io others s tokens req = inl (inl refl)
  route-IsClassifiedReply shutting_down allow uuid io others s tokens req = inl (inl refl)
  route-IsClassifiedReply exiting allow uuid io others s tokens req = inl (inl refl)
  route-IsClassifiedReply browsers allow uuid io others s tokens req = inl (inl refl)
  route-IsClassifiedReply other allow uuid io others s tokens req =
      other-IsClassifiedReply allow others s req

  -- Every error that the router makes for a request, on every path, carries an error code and the
  -- category that `error_category` gives to that code. The only other response is the one that came
  -- on the channel of a request that was sent to an extension, passed on as it came; nothing is said
  -- of that one.
  pub handle_request-IsClassifiedReply :
      (allow : Bool) (uuid : String) (io : DiskAnswers) (others : Others S Value)
      (s : BridgeState S) (tokens : TokenManager × Files) (req : Request Value)
      → IsClassifiedReply J others
          (handle_request J codec c allow uuid io others s tokens req).handled
  unfolding handle_request
  handle_request-IsClassifiedReply allow uuid io others s tokens req =
      route-IsClassifiedReply (route req.method) allow uuid io others s tokens req
