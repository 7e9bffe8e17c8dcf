-- ===== src/Router/Forward.antt =====
-- bridge/src/router.rs: `forward_to_extension`. Each section under the lock is one step; between
-- the steps other tasks change the state.
use Prim.Native.String.{len}
use brp_spec.Base.{
  ℕ, ◌+◌, ◌/◌, max, String, true, false, Option, none, some, List, [], ◌∷◌, nat_eq, ltb,
  if◌then◌else◌, unwrap_or, and_then, ◌<>◌,
}
use brp_spec.Base.Int.{neg}
use brp_spec.Base.Dict
use brp_spec.Base.U32.{show}
use brp_spec.Json.{SerdeJson}
use brp_spec.Auth.{max_message_size}
use brp_spec.Message.{Request, Response, error, internal_error, json_error}
use brp_spec.Router.State.{BridgeState, get_sender, next_ext_request_id, forget}

-- How the wait on the oneshot channel ends.
pub data WaitResult (V : Type 0) : Type 0 where
  answered : Response V → WaitResult V
  channel_closed : WaitResult V
  elapsed : WaitResult V

-- What the other tasks and the outside world do during one request.
pub record Others (S V : Type 0) : Type 0 where
  pub pick : ℕ
  pub channel : ℕ
  pub send_error : Option String
  pub wait_result : WaitResult V
  pub between_checks : BridgeState S → BridgeState S
  pub before_forward : BridgeState S → BridgeState S
  pub while_sending : BridgeState S → BridgeState S
  pub while_waiting : BridgeState S → BridgeState S

-- The state afterwards, the response, and the messages sent to extensions.
pub record Handled (S V : Type 0) : Type 0 where
  pub state : BridgeState S
  pub response : Response V
  pub sent : List (S × String)

module _ (J : SerdeJson) where
  open J use {Value, get, as_str, as_u64, text, int, object, object_remove, to_string}

  unfoldable pub target_browser : Request Value → Option String
  target_browser req = and_then req.params λ p. and_then (get p "browserId") as_str

  unfoldable pub forwarded_params : Request Value → Value
  forwarded_params req = object_remove (unwrap_or req.params (object [])) "browserId"

  unfoldable pub ext_message : ℕ → Request Value → String
  unfolding forwarded_params
  ext_message ext_id req = to_string (
      object (
        ("jsonrpc", text "2.0")
        ∷ ("id", int ext_id)
        ∷ ("method", text req.method)
        ∷ ("params", forwarded_params req)
        ∷ []))

  unfoldable pub timeout_secs : Request Value → ℕ
  unfolding forwarded_params
  timeout_secs req =
      let client_timeout_ms =
        unwrap_or (and_then (get (forwarded_params req) "timeout") as_u64) 0 in
      max 30 (client_timeout_ms / 1000 + 10)

  unfoldable pub no_extension : Request Value → Response Value
  unfolding error
  no_extension req = error req.id (record {
    code = neg 32001;
    message = "No extension connected";
    error_data = some (
        json_error J "BRP_EXTENSION_DISCONNECTED" "TARGET" true (
          ("recoveryHint", text "Install the BRP extension in Firefox/Zen and ensure it is running")
          ∷ []));
  })

module _ {S : Type 0} (J : SerdeJson) where
  open J use {Value, nat, object}

  -- The first section under the lock: the sender, the number and the name of the extension.
  unfoldable pub begin_forward :
      Others S Value → BridgeState S → Request Value → Option (BridgeState S × S × ℕ × String)
  unfolding get_sender next_ext_request_id target_browser
  begin_forward others s req = elim (get_sender others.pick s (target_browser J req)) [
    | none ↦ none
    | some (browser_id, sender) ↦
        let (s', ext_id) = next_ext_request_id s in
        some (
          record s' {
            pending = Dict.insert ext_id (req.id, others.channel, browser_id) s'.pending;
          },
          sender,
          ext_id,
          browser_id,
        )
  ]

  -- From the wait to the end.
  unfoldable pub finish_forward :
      WaitResult Value → ℕ → Request Value → BridgeState S → BridgeState S × Response Value
  unfolding error internal_error timeout_secs
  finish_forward (answered response) ext_id req s = (s, response)
  finish_forward channel_closed ext_id req s =
      (forget ext_id s, internal_error J req.id "Extension response channel closed")
  finish_forward elapsed ext_id req s = (
    forget ext_id s,
    error req.id (record {
      code = neg 32000;
      message = "Extension request timed out (" <> show (timeout_secs J req) <> "s)";
      error_data = some (json_error J "BRP_TIMEOUT" "INTERNAL" true []);
    }),
  )

  -- From the built message to the wait.
  unfoldable pub transmit : Others S Value → S → ℕ → Request Value → BridgeState S → Handled S Value
  unfolding error internal_error ext_message
  transmit others sender ext_id req s =
      let message = ext_message J ext_id req in
      let s' = others.while_sending s in
      if ltb max_message_size (len message)
      then record {
        state = forget ext_id s';
        response = error req.id (record {
          code = neg 32000;
          message = "Request too large to forward";
          error_data = some (
              json_error J "BRP_MESSAGE_TOO_LARGE" "INTERNAL" false
                (("size", nat (len message)) ∷ ("maxSize", nat max_message_size) ∷ []));
        });
        sent = [];
      }
      else elim others.send_error [
        | some e ↦ record {
          state = forget ext_id s';
          response = internal_error J req.id ("Extension send failed: " <> e);
          sent = [];
        }
        | none ↦
            let (s'', response) =
              finish_forward others.wait_result ext_id req (others.while_waiting s') in
            record { state = s''; response = response; sent = (sender, message) ∷ [] }
      ]

  unfoldable pub forward_to_extension :
      Others S Value → BridgeState S → Request Value → Handled S Value
  forward_to_extension others s req = elim (begin_forward others s req) [
    | none ↦ record { state = s; response = no_extension J req; sent = [] }
    | some (s', sender, ext_id, browser_id) ↦ transmit others sender ext_id req s'
  ]
