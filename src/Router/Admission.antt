-- ===== src/Router/Admission.antt =====
-- bridge/src/router.rs: what has been checked of a request that reaches an extension.
use brp_spec.Base.{
  String, ◌≡◌, ◌≢◌, ◌⊎◌, inl, inr, refl, sym, ap, ◌∙◌, Bool, true, false, ◌||◌, none, List, [], ◌∷◌,
  arith, Option-cases, eq_iff, string_eq, ◌==◌, any, contains, if◌then◌else◌, starts_with,
  ends_with, drop_last,
}
use brp_spec.Json.{SerdeJson}
use brp_spec.Auth.{ConstantTimeEq, allowed_methods}
use brp_spec.Message.{Request, Codec}
use brp_spec.Session.{Session, new, is_ready, concrete_actions}
use brp_spec.Session.Negotiation.{bridge_default, covers}
use brp_spec.Session.Grants.{grants}
use brp_spec.Session.Lifecycle.{SessionCall, IsConsistent, run, run-new-IsConsistent}
use brp_spec.Tokens.{TokenManager, Files, DiskAnswers}
use brp_spec.Router.State.{BridgeState}
use brp_spec.Router.Gate.{method_allowed, navigates, url_blocked, refusal}
use brp_spec.Router.Forward.{Others}
use brp_spec.Router.Handle.{
  Route, issue, revoke, list, initializing, shutting_down, exiting, browsers, other, route,
  handle_other, handle_route, handle_request,
}

-- What the checks have established, with the session read at the capability check and the one
-- read at the state check.
pub record IsAdmitted (V : SerdeJson) (allow : Bool) (first second : Session)
    (req : Request V.Value) : Type 0 where
  pub whitelisted : contains allowed_methods req.method ≡ true
  pub capable : (is_ready first ≡ false) ⊎ (method_allowed first req.method ≡ true)
  pub safe_url : (navigates req.method ≡ false) ⊎ (url_blocked V req.params ≡ false)
  pub script_enabled : ((req.method == "script.execute") ≡ false) ⊎ (allow ≡ true)
  pub ready : is_ready second ≡ true

passes :
    (J : SerdeJson) (allow : Bool) (first second : Session) (req : Request J.Value)
    → refusal J allow first second req ≡ none
    → IsAdmitted J allow first second req
unfolding refusal
passes J allow first second req h = ground arith

module _ {S : Type 0} (J : SerdeJson) (codec : Codec J) (c : ConstantTimeEq) where
  open J use {Value}

  sent_other :
      (allow : Bool) (others : Others S Value) (s : BridgeState S) (req : Request Value)
      → (handle_other J codec c allow others s req).sent ≢ []
      → IsAdmitted J allow s.session (others.between_checks s).session req
  unfolding handle_other
  sent_other allow others s req h =
      elim (Option-cases (refusal J allow s.session (others.between_checks s).session req)) [
        | inl e ↦ passes J allow s.session (others.between_checks s).session req e
        | inr (response, e) ↦ absurd (h (rw (e, handle_other)))
      ]

  sent_route :
      (r : Route) (allow : Bool) (uuid : String) (io : DiskAnswers) (others : Others S Value)
      (s : BridgeState S) (tokens : TokenManager × Files) (req : Request Value)
      → (handle_route J codec c r allow uuid io others s tokens req).sent ≢ []
      → IsAdmitted J allow s.session (others.between_checks s).session req
  unfolding handle_route
  sent_route issue allow uuid io others s tokens req h = absurd (h refl)
  sent_route revoke allow uuid io others s tokens req h = absurd (h refl)
  sent_route list allow uuid io others s tokens req h = absurd (h refl)
  sent_route initializing allow uuid io others s tokens req h = absurd (h refl)
  sent_route shutting_down allow uuid io others s tokens req h = absurd (h refl)
  sent_route exiting allow uuid io others s tokens req h = absurd (h refl)
  sent_route browsers allow uuid io others s tokens req h = absurd (h refl)
  sent_route other allow uuid io others s tokens req h = sent_other allow others s req h

  -- A request that makes the router send anything to an extension, whatever other tasks do
  -- meanwhile, has a whitelisted method that the negotiated capabilities allow (unless the session
  -- was not ready yet when they were read), no blocked URL if it navigates, the permission to run
  -- scripts if it does, and a session that was ready at the last check.
  pub handle_request-sent :
      (allow : Bool) (uuid : String) (io : DiskAnswers) (others : Others S Value)
      (s : BridgeState S) (tokens : TokenManager × Files) (req : Request Value)
      → (handle_request J codec c allow uuid io others s tokens req).sent ≢ []
      → IsAdmitted J allow s.session (others.between_checks s).session req
  unfolding handle_request
  handle_request-sent allow uuid io others s tokens req h =
      sent_route (route req.method) allow uuid io others s tokens req h

-- Looking up the concrete actions and trying the wildcards is what the list of actions grants.
allowed-eq-grants :
    (actions : List String) (m : String)
    → (contains (concrete_actions actions) m
        || any (λ a. if ends_with a ".*" then starts_with m (drop_last a) else false) actions)
      ≡ grants actions m
unfolding concrete_actions grants covers
allowed-eq-grants [] m = refl
allowed-eq-grants (a ∷ actions) m =
    ground (arith, eq_iff m a, eq_iff a m, allowed-eq-grants actions m)

-- In a ready session of any history, the router's test is membership in what was negotiated.
pub method_allowed-eq-grants :
    (s : Session) (m : String)
    → IsConsistent s
    → is_ready s ≡ true
    → method_allowed s m ≡ grants s.capabilities.actions m
unfolding method_allowed
method_allowed-eq-grants s m v h = rw (v.filtered h) (allowed-eq-grants s.capabilities.actions m)

module _ {S : Type 0} (J : SerdeJson) (codec : Codec J) (c : ConstantTimeEq) where
  open J use {Value}

  -- After any history of handshakes, shutdowns, exits and notifications, a request whose session
  -- does not change between the two checks reaches an extension only if the bridge's default list
  -- of actions grants its method: no client can negotiate its way to another method.
  pub sent-granted :
      (allow : Bool) (uuid : String) (io : DiskAnswers) (others : Others S Value)
      (s : BridgeState S) (tokens : TokenManager × Files) (req : Request Value) (seed : String)
      (calls : List SessionCall)
      → s.session ≡ run (new seed) calls
      → (others.between_checks s).session ≡ s.session
      → (handle_request J codec c allow uuid io others s tokens req).sent ≢ []
      → grants bridge_default.actions req.method ≡ true
  sent-granted allow uuid io others s tokens req seed calls history quiet h =
      let a = handle_request-sent J codec c allow uuid io others s tokens req h in
      let v : IsConsistent s.session = rw history (run-new-IsConsistent seed calls) in
      let r : is_ready s.session ≡ true = ap is_ready (sym quiet) ∙ a.ready in
      v.within req.method (elim a.capable [
        | inl asleep ↦ cc
        | inr may ↦ sym (method_allowed-eq-grants s.session req.method v r) ∙ may
      ])
