-- ===== src/Exchange.antt =====
-- What bridge/src/router.rs and bridge/src/ws_server.rs promise for the requests that they
-- forward, without the map, the counter and the lock: a book of open calls, each under a number
-- that is never used again, and a log of the replies.
pub mod Once
pub mod Runs
pub mod Pending
pub mod Refines
pub mod Channels
use brp_spec.Base.{
  ℕ, String, Option, none, some, List, [], ◌∷◌, map, nat_eq, ◌==◌, if◌then◌else◌, ◌≡◌, ◌≢◌, ◌⊎◌, In,
}
use brp_spec.Json.{SerdeJson}
use brp_spec.Message.{MessageId, Response, Codec}
use brp_spec.WsServer.Extension.{client_response, disconnect_error}

-- A call: the client's id, the channel on which its task waits, and the browser asked.
abbrev pub Call : Type 0
Call = MessageId × ℕ × String

abbrev pub Book : Type 0
Book = ℕ → Option Call

-- The numbers of the calls opened, and of the calls answered.
abbrev pub numbers : List (ℕ × Call) → List ℕ
numbers [] = []
numbers ((n, call) ∷ opened) = n ∷ numbers opened

abbrev pub answered : {V : Type 0} → List (ℕ × Call × Response V) → List ℕ
answered [] = []
answered ((n, call, r) ∷ log) = n ∷ answered log

module _ (J : SerdeJson) (codec : Codec J) where
  open J use {Value}

  -- A reply to a call: what an extension answered, under the client's id, or the error of a
  -- disconnect.
  pub data IsReply (call : Call) (r : Response Value) : Type 0 where
    converted :
        (browser_id : String) (value : Value)
        → client_response J codec browser_id call.0 value ≡ some r
        → IsReply call r
    cut_off : r ≡ disconnect_error J call.0 → IsReply call r

  -- The calls opened, newest first, the replies delivered, newest first, and the book.
  pub data Exchange : List (ℕ × Call) → List (ℕ × Call × Response Value) → Book → Type 0 where
    opens_empty : {book : Book} → ((j : ℕ) → book j ≡ none) → Exchange [] [] book
    opens :
        {opened : List (ℕ × Call)} {log : List (ℕ × Call × Response Value)} {before book : Book}
        (n : ℕ) (call : Call)
        → Exchange opened log before
        → ¬ In n (numbers opened)
        → ((j : ℕ) → book j ≡ (if n == j then some call else before j))
        → Exchange ((n, call) ∷ opened) log book
    replies :
        {opened : List (ℕ × Call)} {log : List (ℕ × Call × Response Value)} {before book : Book}
        (n : ℕ) (call : Call) (r : Response Value)
        → Exchange opened log before
        → before n ≡ some call
        → IsReply call r
        → ((j : ℕ) → book j ≡ (if n == j then none else before j))
        → Exchange opened ((n, call, r) ∷ log) book
    gives_up :
        {opened : List (ℕ × Call)} {log : List (ℕ × Call × Response Value)} {before book : Book}
        (n : ℕ)
        → Exchange opened log before
        → ((j : ℕ) → book j ≡ (if n == j then none else before j))
        → Exchange opened log book
