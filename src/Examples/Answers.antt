-- ===== src/Examples/Answers.antt =====
-- Answers of extensions and disconnects at concrete inputs.
use brp_spec.Base.{
  ℕ, ◌+◌, ◌<◌, ◌^◌, ◌≡◌, refl, true, false, none, some, List, [], ◌∷◌, arith, if◌then◌else◌, nat_eq,
  string_eq, ◌==◌, any,
}
use brp_spec.Base.Dict
use brp_spec.Message.{number, Response, json_rpc_version}
use brp_spec.Router.State
use brp_spec.Router.State.{
  BridgeState, get_sender, next_ext_request_id, add_extension, remove_extension,
}
use brp_spec.Router.Forward.{begin_forward, target_browser}
use brp_spec.WsServer.Admit.{Frame, text_frame, close_frame}
use brp_spec.WsServer.Extension.{
  client_response, on_answer, disconnect, asked_of, handle_ext_messages, run_extension, on_text,
}
use brp_spec.WsServer.Delivery.{answer_reaches_request}
use brp_spec.WsServer.Disconnect.{IsSettled, disconnect-IsSettled, run_extension-unregisters}
use brp_spec.WsServer.Numbers.{Reachable, started, in_session, connected}
use brp_spec.Examples.Values.{Value, num, str, obj, field, no_fields, json, codec, response_laws}
use brp_spec.Examples.Forwarding.{ready_session, connected_state, tab_list, others}

-- The state after `tab_list` has been recorded for the extension `zen`.
abbrev pub waiting_state : BridgeState ℕ
waiting_state = record connected_state {
  pending = (10000, (number 7, 40, "zen")) ∷ [];
  next_ext_id = 10001;
}

pub tab_list_begun :
    begin_forward json others connected_state tab_list ≡ some (waiting_state, 3, 10000, "zen")
unfolding begin_forward get_sender target_browser next_ext_request_id add_extension State.new
    Dict.get Dict.insert Dict.remove
tab_list_begun = refl

-- An answer whose result has one field.
abbrev one_result : Value
one_result = obj (field "tabs" (num 1) no_fields)

abbrev answer : Value
answer = obj (field "id" (num 10000) (field "result" one_result no_fields))

abbrev reply : Response Value
reply = record {
  jsonrpc = json_rpc_version;
  id = number 7;
  result = some (obj (field "tabs" (num 1) (field "browserId" (str "zen") no_fields)));
  error = none;
}

answer_converted : client_response json codec "zen" (number 7) answer ≡ some reply
unfolding client_response
answer_converted = refl

answer_reaches_request_example :
    ((on_answer json codec "zen" 10000 answer waiting_state).delivered ≡ (40, reply) ∷ [])
    × (reply.id ≡ tab_list.id)
    × ((j : ℕ)
        → Dict.get j (on_answer json codec "zen" 10000 answer waiting_state).state.pending
          ≡ (if 10000 == j then none else Dict.get j waiting_state.pending))
answer_reaches_request_example =
    answer_reaches_request json codec response_laws others connected_state tab_list waiting_state 3
      10000 "zen" waiting_state "zen" answer reply tab_list_begun refl answer_converted

disconnect-IsSettled_example :
    IsSettled json "zen" waiting_state (disconnect json codec "zen" waiting_state)
disconnect-IsSettled_example = disconnect-IsSettled json codec "zen" waiting_state

abbrev frames : List ((BridgeState ℕ → BridgeState ℕ) × Frame)
frames = (λ s. s, text_frame "not JSON") ∷ (λ s. s, close_frame) ∷ []

frames_handled :
    (handle_ext_messages json codec "zen" frames (add_extension "zen" 4 waiting_state)).1 ≡ true
unfolding handle_ext_messages on_text
frames_handled = refl

run_extension-unregisters_example :
    let left = (run_extension json codec "zen" 4 frames waiting_state).state in
    (Dict.get "zen" left.extensions ≡ none) × (any (asked_of "zen") left.pending ≡ false)
run_extension-unregisters_example =
    run_extension-unregisters json codec "zen" 4 frames waiting_state frames_handled

connected_reached : Reachable json codec 0 connected_state
connected_reached = connected "zen" 3 (in_session ready_session (started "s1"))

few_requests : 10001 + 0 < 2 ^ 64
few_requests = omega arith
