-- ===== src/Examples/Forwarding.antt =====
-- Connections, requests and answers at concrete inputs.
use brp_spec.Base.{
  ℕ, ◌≡◌, ◌≢◌, inl, refl, true, false, none, some, List, [], ◌∷◌, ◌<>◌, starts_with, ends_with,
  drop_last, nat_eq, string_eq,
}
use brp_spec.Base.Int.{neg}
use brp_spec.Base.Dict
use brp_spec.Auth.{allowed_methods}
use brp_spec.Message.{number, Request, Response, json_rpc_version, json_error}
use brp_spec.Session
use brp_spec.Session.{Session, is_ready, initialize, concrete_actions, negotiate_with}
use brp_spec.Session.Negotiation.{bridge_default}
use brp_spec.Session.Grants.{grants}
use brp_spec.Session.Lifecycle.{SessionCall, initializes, run, step}
use brp_spec.Tokens.{TokenManager, Files, DiskAnswers}
use brp_spec.Router.State
use brp_spec.Router.State.{
  BridgeState, get_sender, next_ext_request_id, add_extension, remove_extension,
}
use brp_spec.Router.Gate.{refusal, method_allowed}
use brp_spec.Router.Forward.{
  Others, answered, elapsed, begin_forward, forward_to_extension, transmit, finish_forward,
  target_browser, ext_message, forwarded_params,
}
use brp_spec.Router.Handle.{handle_request, handle_route, handle_other, route}
use brp_spec.Router.Admission.{IsAdmitted, handle_request-sent, sent-granted}
use brp_spec.Router.Coverage.{out_of_reach-refused}
use brp_spec.Router.Categories.{IsClassifiedReply, handle_request-IsClassifiedReply}
use brp_spec.Router.Replies.{IsReply, handle_request-IsReply}
use brp_spec.Examples.Values.{Value, str, json, codec, constant_time_eq}

abbrev pub tokens : TokenManager
tokens = record { master_token = "mt_1"; client_tokens = []; legacy_token = "" }

abbrev pub files : Files
files = record { tokens_file = none; tmp_file = none }

abbrev pub io : DiskAnswers
io = record {
  created = true;
  written = true;
  synced = true;
  renamed = true;
  removed = true;
  partial = "";
}

-- Requests. A connection's handle is a number.

abbrev pub calls : List SessionCall
calls =
    initializes (record { protocol_version = "0.1.0"; client_info = none; capabilities = none })
    ∷ []

abbrev pub ready_session : Session
ready_session = run (Session.new "s1") calls

session_is_ready : is_ready ready_session ≡ true
unfolding is_ready run step initialize Session.new
session_is_ready = refl

abbrev pub connected_state : BridgeState ℕ
connected_state = add_extension "zen" 3 (record (State.new "s1") { session = ready_session })

abbrev pub tab_list : Request Value
tab_list = record { jsonrpc = json_rpc_version; id = number 7; method = "tab.list"; params = none }

abbrev scroll : Request Value
scroll = record tab_list { method = "element.scroll" }

abbrev pub others : Others ℕ Value
others = record {
  pick = 0;
  channel = 40;
  send_error = none;
  wait_result = elapsed;
  between_checks = λ s. s;
  before_forward = λ s. s;
  while_sending = λ s. s;
  while_waiting = λ s. s;
}

tab_list_sent :
    (handle_request json codec constant_time_eq false "u" io others connected_state
      (tokens, files)
      tab_list).sent
    ≢ []
unfolding handle_request handle_route route handle_other refusal allowed_methods method_allowed
    is_ready run step initialize Session.new State.new add_extension forward_to_extension
    begin_forward get_sender target_browser next_ext_request_id transmit finish_forward
    concrete_actions bridge_default ext_message forwarded_params negotiate_with ends_with
    starts_with drop_last Dict.get Dict.insert Dict.remove
tab_list_sent = λ e. cc

handle_request-sent_example :
    IsAdmitted json false connected_state.session connected_state.session tab_list
handle_request-sent_example =
    handle_request-sent json codec constant_time_eq false "u" io others connected_state
      (tokens, files) tab_list tab_list_sent

session_kept : connected_state.session ≡ run (Session.new "s1") calls
unfolding add_extension
session_kept = refl

sent-granted_example : grants bridge_default.actions "tab.list" ≡ true
sent-granted_example =
    sent-granted json codec constant_time_eq false "u" io others connected_state (tokens, files)
      tab_list "s1" calls session_kept refl tab_list_sent

-- An answer with both a result and an error, and another id.
abbrev odd_answer : Response Value
odd_answer = record {
  jsonrpc = json_rpc_version;
  id = number 1;
  result = some (str "done");
  error = some (record { code = neg 1; message = "failed"; error_data = none });
}

abbrev answering : Others ℕ Value
answering = record others { wait_result = answered odd_answer }

handle_request-IsReply_example :
    IsReply answering
      (number 7)
      (handle_request json codec constant_time_eq false "u" io answering connected_state
        (tokens, files)
        tab_list).handled
handle_request-IsReply_example =
    handle_request-IsReply json codec constant_time_eq false "u" io answering connected_state
      (tokens, files) tab_list

out_of_reach-refused_example :
    refusal json false ready_session ready_session scroll
    ≡ some (record {
      code = neg 32005;
      message = "Method not supported by negotiated capabilities: " <> "element.scroll";
      error_data = some (
          json_error json "BRP_CAPABILITY_NOT_SUPPORTED" "CAPABILITY" false
            (("recoveryHint", str "Check initialize response for supported actions") ∷ []));
    })
out_of_reach-refused_example =
    out_of_reach-refused json false ready_session scroll "s1" calls (inl refl) session_is_ready

handle_request-IsClassifiedReply_example :
    IsClassifiedReply json answering
      (handle_request json codec constant_time_eq false "u" io answering connected_state
        (tokens, files)
        tab_list).handled
handle_request-IsClassifiedReply_example =
    handle_request-IsClassifiedReply json codec constant_time_eq false "u" io answering
      connected_state (tokens, files) tab_list
