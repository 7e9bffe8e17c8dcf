-- ===== src/Router/Gate.antt =====
-- bridge/src/router.rs: the tests that a method passes before it is forwarded.
use brp_spec.Base.{
  String, Bool, false, not, ◌&&◌, ◌||◌, Option, none, some, [], ◌∷◌, string_eq, ◌==◌, any, contains,
  if◌then◌else◌, starts_with, ends_with, drop_last, unwrap_or, and_then, or_else, ◌<>◌,
}
use brp_spec.Base.Int.{neg}
use brp_spec.Json.{SerdeJson}
use brp_spec.Auth.{allowed_methods}
use brp_spec.Message.{Request, ErrorResponse, json_error}
use brp_spec.Session.{Session, is_ready}

-- `session.state == Ready || session.state == Busy`, the same states as `is_ready`.
unfoldable pub method_allowed : Session → String → Bool
method_allowed s method =
    contains s.negotiated_capabilities method
    || any (λ a. if ends_with a ".*" then starts_with method (drop_last a) else false)
        s.capabilities.actions

unfoldable pub url_allowed : String → Bool
url_allowed url =
    url == "" || url == "about:blank" || starts_with url "https://" || starts_with url "http://"

abbrev pub navigates : String → Bool
navigates method = method == "page.navigate" || method == "tab.open"

module _ (J : SerdeJson) where
  open J use {Value, get, as_str, text}

  -- `params.get("url").or_else(|| params.get("uri")).and_then(as_str).unwrap_or("")`
  unfoldable pub url_of : Value → String
  url_of params = unwrap_or (and_then (or_else (get params "url") (get params "uri")) as_str) ""

  abbrev pub url_blocked : Option Value → Bool
  url_blocked none = false
  url_blocked (some params) = not (url_allowed (url_of params))

  abbrev pub url_param : Option Value → String
  url_param none = ""
  url_param (some params) = url_of params

  -- The checks of the last arm of `handle_request`, in order, with the error that each returns; `first` is the session that the
  -- capability check reads, and `second` the one that the state check reads.
  unfoldable pub refusal : Bool → Session → Session → Request Value → Option (ErrorResponse Value)
  refusal allow_script_execute first second req =
      if not (contains allowed_methods req.method)
      then some (record {
        code = neg 32601;
        message = "Unknown method: " <> req.method;
        error_data = some (json_error J "BRP_METHOD_NOT_FOUND" "CAPABILITY" false []);
      })
      else if is_ready first && not (method_allowed first req.method)
      then some (record {
        code = neg 32005;
        message = "Method not supported by negotiated capabilities: " <> req.method;
        error_data = some (
            json_error J "BRP_CAPABILITY_NOT_SUPPORTED" "CAPABILITY" false
              (("recoveryHint", text "Check initialize response for supported actions") ∷ []));
      })
      else if navigates req.method && url_blocked req.params
      then some (record {
        code = neg 32602;
        message =
            "Blocked URL scheme (only http(s) and about:blank allowed): " <> url_param req.params;
        error_data = some (json_error J "BRP_URL_SCHEME_BLOCKED" "PERMISSION" false []);
      })
      else if req.method == "script.execute" && not allow_script_execute
      then some (record {
        code = neg 32602;
        message =
            "script.execute is disabled by default. Set BRP_ALLOW_SCRIPT_EXECUTE=1 to enable.";
        error_data = some (
            json_error J "BRP_PERMISSION_DENIED" "PERMISSION" false (
              (
                "recoveryHint",
                text
                    "Set environment variable BRP_ALLOW_SCRIPT_EXECUTE=1 before starting the Bridge",
              )
              ∷ []));
      })
      else if not (is_ready second)
      then some (record {
        code = neg 32002;
        message = "Session not initialized";
        error_data = some (json_error J "BRP_SESSION_UNINITIALIZED" "INTERNAL" false []);
      })
      else none
