-- ===== src/WsServer/Extension.antt =====
-- bridge/src/ws_server.rs: the messages of an extension, and what happens when it disconnects.
use Prim.Native.String.{len}
use brp_spec.Base.{
  ℕ, String, Bool, true, false, not, ◌||◌, Option, none, some, List, [], ◌∷◌, ◌++◌, map, string_eq,
  nat_eq, ◌==◌, ltb, if◌then◌else◌, keep_if, is_some, unwrap_or, and_then,
}
use brp_spec.Base.Int.{neg}
use brp_spec.Base.Dict
use brp_spec.Base.Dict.{Dict}
use brp_spec.Json.{SerdeJson}
use brp_spec.Auth.{max_message_size, max_json_depth, validate_json_depth}
use brp_spec.Message.{MessageId, Response, Codec, error, new_notification}
use brp_spec.Session.{next_sequence}
use brp_spec.Router.State.{BridgeState, add_extension, remove_extension}
use brp_spec.WsServer.Admit.{Frame, text_frame, close_frame, other_frame, failed_frame, ended}

-- What one message, or a whole connection, has done: the state, the responses sent on oneshot
-- channels and the notifications queued for the client.
pub record Effects (S V : Type 0) : Type 0 where
  pub state : BridgeState S
  pub delivered : List (ℕ × Response V)
  pub notified : List V

abbrev pub quiet : {S V : Type 0} → BridgeState S → Effects S V
quiet s = record { state = s; delivered = []; notified = [] }

module _ (J : SerdeJson) (codec : Codec J) where
  open J use {Value, get, as_str, as_i64, nat, text, object, object_insert, index_set}

  -- The extension's answer under the client's id, its result marked with the browser.
  unfoldable pub client_response : String → MessageId → Value → Option (Response Value)
  client_response browser_id client_id value =
      and_then (index_set value "id" (codec.message_id client_id)) λ resp.
        codec.parse_response (elim (get resp "result") [
          | none ↦ resp
          | some result ↦
              object_insert resp "result" (object_insert result "browserId" (text browser_id))
        ])

  -- `Some(id)` where the message is an answer: a number as id, and a result or an error.
  unfoldable pub answer_id : Value → Option ℕ
  answer_id value =
      and_then (and_then (get value "id") as_i64)
        λ n. if is_some (get value "result") || is_some (get value "error") then some n else none

  -- The parameters of a notification; `none` where the indexing panics.
  unfoldable pub numbered_params : String → ℕ → Value → Option Value
  numbered_params browser_id seq value =
      and_then (index_set (unwrap_or (get value "params") (object [])) "sequence" (nat seq))
        λ p. index_set p "browserId" (text browser_id)

unfoldable pub disconnect_error : (J : SerdeJson) → MessageId → Response J.Value
unfolding error
disconnect_error J client_id = error client_id (record {
  code = neg 32001;
  message = "Extension disconnected during request";
  error_data = some (
      J.object
        (("errorCode", J.text "BRP_EXTENSION_DISCONNECTED") ∷ ("retriable", J.bool true) ∷ []));
})

-- The entries of one browser.
abbrev pub asked_of : String → ℕ × (MessageId × ℕ × String) → Bool
asked_of browser_id (ext_id, (client_id, channel, asked)) = asked == browser_id

module _ {S : Type 0} (J : SerdeJson) (codec : Codec J) where
  open J use {Value, get, as_str, from_str}

  -- The entry leaves `pending` even if the answer then does not parse.
  unfoldable pub on_answer : String → ℕ → Value → BridgeState S → Effects S Value
  unfolding client_response
  on_answer browser_id ext_id value s =
      let s' = record s { pending = Dict.remove ext_id s.pending } in
      elim (Dict.get ext_id s.pending) [
        | none ↦ quiet s'
        | some (client_id, channel, asked) ↦
            elim (client_response J codec browser_id client_id value) [
              | none ↦ quiet s'
              | some response ↦ record {
                state = s';
                delivered = (channel, response) ∷ [];
                notified = [];
              }
            ]
      ]

  -- The Boolean is false where the connection's task panics.
  unfoldable pub on_notification : String → String → Value → BridgeState S → Effects S Value × Bool
  unfolding numbered_params
  on_notification browser_id method value s =
      let (session, seq) = next_sequence s.session in
      elim (numbered_params J codec browser_id seq value) [
        | none ↦ (quiet (record s { session = session }), false)
        | some params ↦ (
          record {
            state = record s { session = session };
            delivered = [];
            notified = codec.notification (new_notification method params) ∷ [];
          },
          true,
        )
      ]

  unfoldable pub on_value : String → Value → BridgeState S → Effects S Value × Bool
  unfolding on_answer on_notification answer_id
  on_value browser_id value s = elim (answer_id J codec value) [
    | some ext_id ↦ (on_answer browser_id ext_id value s, true)
    | none ↦ elim (and_then (get value "method") as_str) [
      | none ↦ (quiet s, true)
      | some method ↦ on_notification browser_id method value s
    ]
  ]

  unfoldable pub on_text : String → String → BridgeState S → Effects S Value × Bool
  on_text browser_id message s =
      if ltb max_message_size (len message) then (quiet s, true) else elim (from_str message) [
        | none ↦ (quiet s, true)
        | some value ↦
            if not (validate_json_depth J value max_json_depth)
            then (quiet s, true)
            else on_value browser_id value s
      ]

  abbrev pub after : Effects S Value → Effects S Value → Effects S Value
  after e f = record {
    state = f.state;
    delivered = e.delivered ++ f.delivered;
    notified = e.notified ++ f.notified;
  }

  -- The loop over the frames, each with what other tasks do before it. The Boolean is false
  -- after a panic.
  unfoldable pub handle_ext_messages :
      String
      → List ((BridgeState S → BridgeState S) × Frame)
      → BridgeState S
      → Effects S Value × Bool
  handle_ext_messages browser_id [] s = (quiet s, true)
  handle_ext_messages browser_id ((others, close_frame) ∷ rest) s = (quiet (others s), true)
  handle_ext_messages browser_id ((others, failed_frame) ∷ rest) s = (quiet (others s), true)
  handle_ext_messages browser_id ((others, ended) ∷ rest) s = (quiet (others s), true)
  handle_ext_messages browser_id ((others, other_frame) ∷ rest) s =
      handle_ext_messages browser_id rest (others s)
  handle_ext_messages browser_id ((others, text_frame message) ∷ rest) s =
      let (e, alive) = on_text browser_id message (others s) in
      let later = handle_ext_messages browser_id rest e.state in
      if alive then (after e later.0, later.1) else (e, false)

  -- `failed_ids`, then the loop that removes each and answers it.
  unfoldable pub disconnect : String → BridgeState S → Effects S Value
  unfolding disconnect_error remove_extension
  disconnect browser_id s =
      let s' = remove_extension browser_id s in
      record {
        state = record s' { pending = keep_if (λ e. not (asked_of browser_id e)) s'.pending };
        delivered =
            map (λ e. (e.1.1, disconnect_error J e.1.0)) (keep_if (asked_of browser_id) s'.pending);
        notified = [];
      }

  -- The extension's branch of `handle_ws_connection`; a panic skips the cleanup.
  unfoldable pub run_extension :
      String → S → List ((BridgeState S → BridgeState S) × Frame) → BridgeState S → Effects S Value
  run_extension browser_id sender frames s =
      let (e, done) = handle_ext_messages browser_id frames (add_extension browser_id sender s) in
      if done then after e (disconnect browser_id e.state) else e
