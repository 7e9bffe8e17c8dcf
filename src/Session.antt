-- ===== src/Session.antt =====
-- bridge/src/protocol/session.rs: the session of a client, its handshake and its life cycle.
pub mod Version
pub mod Negotiation
pub mod Lifecycle
pub mod Grants
use brp_spec.Base.{
  ℕ, suc, ◌+◌, ◌%◌, ◌^◌, String, Bool, true, false, not, Option, none, some, List, [], keep_if,
  ends_with, take_str, ◌<>◌,
}
use Version.{bridge_protocol_version, negotiate_version}
use Negotiation.{Capabilities, bridge_default, negotiate}

pub data SessionState : Type 0 where
  disconnected connecting authenticating ready busy closing closed : SessionState

-- `Display`
unfoldable pub display_state : SessionState → String
display_state SessionState.disconnected = "disconnected"
display_state SessionState.connecting = "connecting"
display_state SessionState.authenticating = "authenticating"
display_state SessionState.ready = "ready"
display_state SessionState.busy = "busy"
display_state SessionState.closing = "closing"
display_state SessionState.closed = "closed"

pub record ClientInfo : Type 0 where
  pub name : String
  pub version : String

pub record InitializeParams : Type 0 where
  pub protocol_version : String
  pub client_info : Option ClientInfo
  pub capabilities : Option Capabilities

-- What an action may require of its element. The bridge passes it on unread.
pub record Precondition : Type 0 where
  pub tag_name : Option String
  pub text_contains : Option String
  pub attributes : Option (List (String × String))

pub record ServerInfo : Type 0 where
  pub name : String
  pub version : String

pub record InitializeResult : Type 0 where
  pub session_id : String
  pub protocol_version : String
  pub negotiated_version : String
  pub server_info : ServerInfo
  pub capabilities : Capabilities

pub record SequenceCounter : Type 0 where
  pub current : ℕ

unfoldable pub new_counter : SequenceCounter
new_counter = record { current = 0 }

-- The sum is a u64, which wraps in a release build.
unfoldable pub next : SequenceCounter → SequenceCounter × ℕ
next c = let n = (c.current + 1) % 2 ^ 64 in (record { current = n }, n)

pub record Session : Type 0 where
  pub id : String
  pub state : SessionState
  pub protocol_version : String
  pub negotiated_version : String
  pub client_info : Option ClientInfo
  pub capabilities : Capabilities
  pub negotiated_capabilities : List String
  pub sequence : SequenceCounter

-- `uuid` is the text of a fresh random UUID.
unfoldable pub new : String → Session
unfolding new_counter bridge_default
new uuid = record {
  id = "session-" <> take_str 6 uuid;
  state = SessionState.disconnected;
  protocol_version = "0.1.0";
  negotiated_version = "0.1.0";
  client_info = none;
  capabilities = bridge_default;
  negotiated_capabilities = [];
  sequence = new_counter;
}

-- `CARGO_PKG_VERSION`, from bridge/Cargo.toml.
abbrev pub cargo_pkg_version : String
cargo_pkg_version = "1.0.1"

-- `if let Some(ref client_caps) = params.capabilities`
unfoldable pub negotiate_with : Capabilities → Option Capabilities → Capabilities
negotiate_with own none = own
negotiate_with own (some client_caps) = negotiate own client_caps

-- The set that the router looks a method up in: no wildcards.
unfoldable pub concrete_actions : List String → List String
concrete_actions actions = keep_if (λ a. not (ends_with a ".*")) actions

unfoldable pub initialize : Session → InitializeParams → Session × InitializeResult
unfolding negotiate_with concrete_actions
initialize s params =
    let negotiated = negotiate_version params.protocol_version bridge_protocol_version in
    let caps = negotiate_with s.capabilities params.capabilities in
    (
      record s {
        state = SessionState.ready;
        protocol_version = params.protocol_version;
        client_info = params.client_info;
        negotiated_version = negotiated;
        capabilities = caps;
        negotiated_capabilities = concrete_actions caps.actions;
      },
      record {
        session_id = s.id;
        protocol_version = params.protocol_version;
        negotiated_version = negotiated;
        server_info = record { name = "brp-bridge-rust"; version = cargo_pkg_version };
        capabilities = caps;
      },
    )

unfoldable pub shutdown : Session → Session
shutdown s = record s { state = SessionState.closing }

unfoldable pub exit : Session → Session
exit s = record s { state = SessionState.closed }

-- `matches!(self.state, Ready | Busy)`
abbrev pub is_ready_state : SessionState → Bool
is_ready_state SessionState.ready = true
is_ready_state SessionState.busy = true
is_ready_state _ = false

unfoldable pub is_ready : Session → Bool
is_ready s = is_ready_state s.state

unfoldable pub next_sequence : Session → Session × ℕ
unfolding next
next_sequence s = let (c, n) = next s.sequence in (record s { sequence = c }, n)
