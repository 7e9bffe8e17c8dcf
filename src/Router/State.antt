-- ===== src/Router/State.antt =====
-- bridge/src/router.rs: `BridgeState`. A sender is an opaque handle of a connection, and a oneshot
-- channel is the number of the task that waits on it.
use brp_spec.Base.{
  ℕ, ◌+◌, ◌%◌, ◌^◌, String, Option, none, some, [], string_eq, nat_eq, length, get_elem?,
}
use brp_spec.Base.Dict
use brp_spec.Base.Dict.{Dict}
use brp_spec.Message.{MessageId}
use brp_spec.Session
use brp_spec.Session.{Session}

module _ (S : Type 0) where
  pub record BridgeState : Type 0 where
    pub session : Session
    pub extensions : Dict String S
    pub pending : Dict ℕ (MessageId × ℕ × String)
    pub next_ext_id : ℕ

module _ {S : Type 0} where
  unfoldable pub new : String → BridgeState S
  new uuid = record {
    session = Session.new uuid;
    extensions = [];
    pending = [];
    next_ext_id = 10000;
  }

  -- The counter is an i64, which wraps in a release build.
  unfoldable pub next_ext_request_id : BridgeState S → BridgeState S × ℕ
  next_ext_request_id s = (record s { next_ext_id = (s.next_ext_id + 1) % 2 ^ 64 }, s.next_ext_id)

  unfoldable pub add_extension : String → S → BridgeState S → BridgeState S
  add_extension browser_id sender s = record s {
    extensions = Dict.insert browser_id sender s.extensions;
  }

  unfoldable pub remove_extension : String → BridgeState S → BridgeState S
  remove_extension browser_id s = record s { extensions = Dict.remove browser_id s.extensions }

  -- With no browser named, the first entry in the map's iteration order, which is the entry at
  -- `pick` modulo the number of entries.
  unfoldable pub get_sender : ℕ → BridgeState S → Option String → Option (String × S)
  get_sender pick s (some id) = elim (Dict.get id s.extensions) [
    | none ↦ none
    | some sender ↦ some (id, sender)
  ]
  get_sender pick s none = get_elem? s.extensions (pick % length s.extensions)

  -- `s.pending.remove(&ext_id)`, without the value.
  abbrev pub forget : ℕ → BridgeState S → BridgeState S
  forget ext_id s = record s { pending = Dict.remove ext_id s.pending }
