-- ===== src/Router/Handle.antt =====
-- bridge/src/router.rs: `handle_request`.
use brp_spec.Base.{
  String, Bool, none, some, [], ◌∷◌, map, length, string_eq, ◌==◌, if◌then◌else◌, unwrap_or,
  and_then,
}
use brp_spec.Json.{SerdeJson}
use brp_spec.Auth.{ConstantTimeEq}
use brp_spec.Message.{Request, Response, Codec, success, error}
use brp_spec.Session.{InitializeParams, initialize, shutdown, exit}
use brp_spec.Tokens.{TokenManager, Files, DiskAnswers, issue_token, revoke_token, list_tokens}
use brp_spec.Router.State.{BridgeState}
use brp_spec.Router.Gate.{refusal}
use brp_spec.Router.TokenCalls.{str_param, issue_reply, revoke_reply, list_reply}
use brp_spec.Router.Forward.{Others, Handled, forward_to_extension}

-- The method strings of the outer match.
pub data Route : Type 0 where
  issue revoke list initializing shutting_down exiting browsers other : Route

unfoldable pub route : String → Route
route method =
    if method == "token.issue"
    then issue
    else if method == "token.revoke"
    then revoke
    else if method == "token.list"
    then list
    else if method == "initialize"
    then initializing
    else if method == "shutdown"
    then shutting_down
    else if method == "exit"
    then exiting
    else if method == "browser.list"
    then browsers
    else other

abbrev pub default_params : InitializeParams
default_params = record { protocol_version = "0.1.0"; client_info = none; capabilities = none }

-- The bridge's state and the token manager's.
pub record World (S V : Type 0) : Type 0 where
  pub handled : Handled S V
  pub open handled use *
  pub tokens : TokenManager × Files

-- A request whose parameters do not parse gets the default ones.
unfoldable pub initialize_params : (J : SerdeJson) → Codec J → Request J.Value → InitializeParams
initialize_params J codec req =
    unwrap_or (and_then req.params codec.parse_initialize_params) default_params

module _ {S : Type 0} (J : SerdeJson) (codec : Codec J) (c : ConstantTimeEq) where
  open J use {Value, text, nat, array, object}

  -- The last arm: the checks, then the extension.
  unfoldable pub handle_other :
      Bool → Others S Value → BridgeState S → Request Value → Handled S Value
  unfolding error
  handle_other allow_script_execute others s req =
      let s' = others.between_checks s in
      elim (refusal J allow_script_execute s.session s'.session req) [
        | some e ↦ record { state = s'; response = error req.id e; sent = [] }
        | none ↦ forward_to_extension J others (others.before_forward s') req
      ]

  abbrev answer : BridgeState S → Response Value → Handled S Value
  answer s response = record { state = s; response = response; sent = [] }

  -- The arms of the match; `uuid` and `io` serve the token calls.
  unfoldable pub handle_route :
      Route
      → Bool
      → String
      → DiskAnswers
      → Others S Value
      → BridgeState S
      → TokenManager × Files
      → Request Value
      → World S Value
  unfolding success handle_other initialize_params
  handle_route issue allow uuid io others s tokens req =
      let (tokens', r) = issue_token J c uuid io tokens (str_param J req "masterToken") in
      record { handled = answer s (issue_reply J req r); tokens = tokens' }
  handle_route revoke allow uuid io others s tokens req =
      let (tokens', r) =
        revoke_token J c io tokens (str_param J req "masterToken") (str_param J req "token") in
      record { handled = answer s (revoke_reply J req r); tokens = tokens' }
  handle_route list allow uuid io others s tokens req = record {
    handled = answer s (list_reply J req (list_tokens c tokens.0 (str_param J req "masterToken")));
    tokens = tokens;
  }
  handle_route initializing allow uuid io others s tokens req =
      let (session, result) = initialize s.session (initialize_params J codec req) in
      record {
        handled =
            answer (record s { session = session })
              (success req.id (codec.initialize_result result));
        tokens = tokens;
      }
  handle_route shutting_down allow uuid io others s tokens req = record {
    handled = answer (record s { session = shutdown s.session }) (success req.id (object []));
    tokens = tokens;
  }
  handle_route exiting allow uuid io others s tokens req = record {
    handled = answer (record s { session = exit s.session }) (success req.id (object []));
    tokens = tokens;
  }
  handle_route browsers allow uuid io others s tokens req =
      let names = map (λ e. object (("browserId", text e.0) ∷ [])) s.extensions in
      record {
        handled = answer s (
            success req.id
              (object (("browsers", array names) ∷ ("count", nat (length names)) ∷ [])));
        tokens = tokens;
      }
  handle_route other allow uuid io others s tokens req = record {
    handled = handle_other allow others s req;
    tokens = tokens;
  }

  unfoldable pub handle_request :
      Bool
      → String
      → DiskAnswers
      → Others S Value
      → BridgeState S
      → TokenManager × Files
      → Request Value
      → World S Value
  unfolding handle_route route
  handle_request allow uuid io others s tokens req =
      handle_route (route req.method) allow uuid io others s tokens req
