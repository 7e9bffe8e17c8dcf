-- ===== src/Router/TokenCalls.antt =====
-- bridge/src/router.rs: `token.issue`, `token.revoke` and `token.list`, which the bridge answers
-- itself.
use brp_spec.Base.{
  String, true, false, some, List, [], ◌∷◌, map, string_eq, if◌then◌else◌, Result, ok, err,
  unwrap_or, and_then, contains_text,
}
use brp_spec.Base.Int.{neg}
use brp_spec.Json.{SerdeJson}
use brp_spec.Message.{Request, Response, success, error, json_error}

module _ (J : SerdeJson) where
  open J use {Value, get, as_str, text, bool, array, object}

  -- `req.params.as_ref().and_then(|p| p.get(key).and_then(as_str)).unwrap_or("")`
  unfoldable pub str_param : Request Value → String → String
  str_param req key = unwrap_or (and_then req.params λ p. and_then (get p key) as_str) ""

  unfoldable pub auth_error : Request Value → String → String → Response Value
  unfolding error
  auth_error req message error_code = error req.id (record {
    code = neg 32001;
    message = message;
    error_data = some (json_error J error_code "AUTH" false []);
  })

  unfoldable pub issue_reply : Request Value → Result String String → Response Value
  unfolding success auth_error
  issue_reply req (ok token) = success req.id (object (("token", text token) ∷ []))
  issue_reply req (err e) = auth_error req e "BRP_MASTER_TOKEN_REQUIRED"

  unfoldable pub revoke_reply : Request Value → Result Unit String → Response Value
  unfolding success auth_error
  revoke_reply req (ok _) = success req.id (object (("revoked", bool true) ∷ []))
  revoke_reply req (err e) = auth_error req e (
      if contains_text e "Master token"
      then "BRP_MASTER_TOKEN_REQUIRED"
      else "BRP_TOKEN_REVOKE_FAILED")

  unfoldable pub list_reply : Request Value → Result (List String) String → Response Value
  unfolding success auth_error
  list_reply req (ok tokens) = success req.id (object (("tokens", array (map text tokens)) ∷ []))
  list_reply req (err e) = auth_error req e "BRP_MASTER_TOKEN_REQUIRED"
