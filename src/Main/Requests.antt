-- ===== src/Main/Requests.antt =====
-- bridge/src/main.rs: the main request loop of the bridge mode.
pub mod Answers
use brp_spec.Base.{String, Bool, true, false, List, [], ◌∷◌, if◌then◌else◌}
use brp_spec.Json.{SerdeJson}
use brp_spec.Auth.{ConstantTimeEq}
use brp_spec.Message.{Codec, Request}
use brp_spec.Session.{SessionState, closed}
use brp_spec.Tokens.{TokenManager, Files, DiskAnswers}
use brp_spec.Router.State.{BridgeState}
use brp_spec.Router.Forward.{Others}
use brp_spec.Router.Handle.{handle_request}

-- One request from the channel, and what the world does around it: what other tasks have done to
-- the state and the tokens since the last one, what happens during the request, whether the
-- response is written, and what other tasks do before the session is tested.
pub record Round (S V : Type 0) : Type 0 where
  pub request : Request V
  pub uuid : String
  pub io : DiskAnswers
  pub others : Others S V
  pub before_state : BridgeState S → BridgeState S
  pub before_tokens : TokenManager × Files → TokenManager × Files
  pub written : Bool
  pub before_test : BridgeState S → BridgeState S

-- Where the loop has got to.
pub record Progress (S : Type 0) : Type 0 where
  pub state : BridgeState S
  pub tokens : TokenManager × Files

abbrev pub is_closed : SessionState → Bool
is_closed closed = true
is_closed _ = false

module _ {S : Type 0} (J : SerdeJson) (codec : Codec J) (c : ConstantTimeEq) (allow : Bool) where
  open J use {Value}

  -- The body of the loop: where it has got to, and the message for stdout. A write that fails is
  -- only logged.
  unfoldable pub answer_request : Round S Value → Progress S → Progress S × Value
  answer_request round w =
      let done =
        handle_request J codec c allow round.uuid round.io round.others (round.before_state w.state)
          (round.before_tokens w.tokens) round.request in
      (
        record { state = round.before_test done.state; tokens = done.tokens },
        codec.response done.response,
      )

  -- The rounds that were served with their messages, and where the loop has ended: at a closed
  -- session, or at the end of the channel.
  unfoldable pub serve_requests :
      List (Round S Value) → Progress S → List (Round S Value × Value) × Progress S
  serve_requests [] w = ([], w)
  serve_requests (round ∷ rest) w =
      let (w', message) = answer_request round w in
      let later = serve_requests rest w' in
      if is_closed w'.state.session.state
      then ((round, message) ∷ [], w')
      else ((round, message) ∷ later.0, later.1)

-- What stands on stdout.
unfoldable pub messages_written : {S V : Type 0} → List (Round S V × V) → List V
messages_written [] = []
messages_written ((round, message) ∷ rest) =
    let later = messages_written rest in if round.written then message ∷ later else later
