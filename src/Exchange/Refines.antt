-- ===== src/Exchange/Refines.antt =====
-- The bridge keeps the promise: its runs are exchanges.
use native.Mathlib.Omega.{arith}
use brp_spec.Base.{
  ℕ, ◌+◌, ◌^◌, ◌<◌, String, Bool, some, Option-cases, List, [], ◌∷◌, ◌++◌, length, nat_eq, ◌==◌,
  string_eq, if◌then◌else◌, ◌≡◌, inl, inr, refl, ◌∙◌, ap, In, keep_if,
}
use brp_spec.Base.Dict
use brp_spec.Base.Dict.{Dict}
use brp_spec.Json.{SerdeJson}
use brp_spec.Message.{Response, Codec}
use brp_spec.Router.State.{BridgeState, new, add_extension, remove_extension, forget}
use brp_spec.WsServer.Extension.{on_answer, disconnect, asked_of, client_response}
use brp_spec.WsServer.Delivery.{on_answer-state, begin_forward-pending, begin_forward-inserts}
use brp_spec.WsServer.Numbers.{begin_forward-fresh}
use brp_spec.Exchange.{Call, numbers, converted, Exchange, opens_empty, opens, replies, gives_up}
use brp_spec.Exchange.Runs.{
  Run, started, begun, given_up, answering, connected, disconnected, in_session, Run-Reachable,
}
use brp_spec.Exchange.Pending.{
  HasDistinctKeys, keep_if-HasDistinctKeys, remove-HasDistinctKeys, insert-HasDistinctKeys,
  get-keep_if-not, cut_log, cut_all, deliveries, deliveries-append, deliveries-cut_log,
}

module _ {S : Type 0} (J : SerdeJson) (codec : Codec J) where
  open J use {Value}

  -- An exchange with the same calls and deliveries, whose book is the pending map read as a
  -- function.
  pub record Refines (opened : List (ℕ × Call)) (sent : List (ℕ × Response Value))
      (s : BridgeState S) : Type 0 where
    pub log : List (ℕ × Call × Response Value)
    pub delivers : deliveries J codec log ≡ sent
    pub exchange : Exchange J codec opened log (λ j. Dict.get j s.pending)

  pub Run-HasDistinctKeys :
      {opened : List (ℕ × Call)} {sent : List (ℕ × Response Value)} {s : BridgeState S}
      → Run J codec opened sent s
      → HasDistinctKeys s.pending
  unfolding new disconnect add_extension remove_extension
  Run-HasDistinctKeys (started uuid) = tt
  Run-HasDistinctKeys (begun others req s' sender ext_id asked r e) =
      rw (begin_forward-inserts J codec others _ req s' sender ext_id asked e)
        (insert-HasDistinctKeys ext_id (req.id, others.channel, asked) _ (Run-HasDistinctKeys r))
  Run-HasDistinctKeys (given_up {s} ext_id r) =
      remove-HasDistinctKeys ext_id s.pending (Run-HasDistinctKeys r)
  Run-HasDistinctKeys (answering {s} browser_id ext_id value r) =
      rw (on_answer-state J codec browser_id ext_id value s)
        (remove-HasDistinctKeys ext_id s.pending (Run-HasDistinctKeys r))
  Run-HasDistinctKeys (connected browser_id sender r) = Run-HasDistinctKeys r
  Run-HasDistinctKeys (disconnected {s} browser_id r) =
      keep_if-HasDistinctKeys _ s.pending (Run-HasDistinctKeys r)
  Run-HasDistinctKeys (in_session session r) = Run-HasDistinctKeys r

  -- The numbers used so far.
  Run-numbers :
      {opened : List (ℕ × Call)} {sent : List (ℕ × Response Value)} {s : BridgeState S}
      → Run J codec opened sent s
      → 10000 + length opened < 2 ^ 64
      → (k : ℕ) → In k (numbers opened)
      → k < 10000 + length opened
  Run-numbers (started uuid) small k m = absurd m
  Run-numbers (begun {opened} {s} others req s' sender ext_id asked r e) small k m =
      let fresh =
        begin_forward-fresh J codec (length opened) others s req s' sender ext_id asked
          (Run-Reachable J codec r) (omega (arith, small)) e in
      elim m [
        | inl q ↦ omega (arith, q, fresh.0)
        | inr old ↦ omega (arith, Run-numbers r (omega (arith, small)) k old)
      ]
  Run-numbers (given_up ext_id r) small k m = Run-numbers r small k m
  Run-numbers (answering browser_id ext_id value r) small k m = Run-numbers r small k m
  Run-numbers (connected browser_id sender r) small k m = Run-numbers r small k m
  Run-numbers (disconnected browser_id r) small k m = Run-numbers r small k m
  Run-numbers (in_session session r) small k m = Run-numbers r small k m

  begun-Refines :
      (opened : List (ℕ × Call)) (sent : List (ℕ × Response Value)) (s s' : BridgeState S) (n : ℕ)
      (call : Call)
      → ¬ In n (numbers opened)
      → ((j : ℕ) → Dict.get j s'.pending ≡ (if n == j then some call else Dict.get j s.pending))
      → Refines opened sent s
      → Refines ((n, call) ∷ opened) sent s'
  begun-Refines opened sent s s' n call fresh e v = record {
    log = v.log;
    delivers = v.delivers;
    exchange = opens n call v.exchange fresh e;
  }

  given_up-Refines :
      (opened : List (ℕ × Call)) (sent : List (ℕ × Response Value)) (s : BridgeState S) (n : ℕ)
      → Refines opened sent s
      → Refines opened sent (forget n s)
  given_up-Refines opened sent s n v = record {
    log = v.log;
    delivers = v.delivers;
    exchange = gives_up n v.exchange (λ j. Dict.get-remove n j s.pending);
  }

  answering-Refines :
      (opened : List (ℕ × Call)) (sent : List (ℕ × Response Value)) (s : BridgeState S)
      (browser_id : String) (n : ℕ) (value : Value)
      → Refines opened sent s
      → Refines opened
          ((on_answer J codec browser_id n value s).delivered ++ sent)
          (on_answer J codec browser_id n value s).state
  unfolding on_answer
  answering-Refines opened sent s browser_id n value v =
      elim (Option-cases (Dict.get n s.pending)) [
        | inl e ↦ rw (on_answer, e) (given_up-Refines opened sent s n v)
        | inr (call, e) ↦ elim (Option-cases (client_response J codec browser_id call.0 value)) [
          | inl f ↦ rw (on_answer, e, f) (given_up-Refines opened sent s n v)
          | inr (r, f) ↦
              rw (on_answer, e, f)
                (record {
                  log = (n, call, r) ∷ v.log;
                  delivers = ap (λ ds. (call.1, r) ∷ ds) v.delivers;
                  exchange =
                      replies n call r v.exchange e (converted browser_id value f)
                        (λ j. Dict.get-remove n j s.pending);
                })
        ]
      ]

  disconnected-Refines :
      (opened : List (ℕ × Call)) (sent : List (ℕ × Response Value)) (s : BridgeState S)
      (browser_id : String)
      → HasDistinctKeys s.pending
      → Refines opened sent s
      → Refines opened
          ((disconnect J codec browser_id s).delivered ++ sent)
          (disconnect J codec browser_id s).state
  unfolding disconnect remove_extension
  disconnected-Refines opened sent s browser_id d v =
      let p : ℕ × Call → Bool = asked_of browser_id in
      record {
        log = cut_log J codec (keep_if p s.pending) ++ v.log;
        delivers =
            deliveries-append J codec (cut_log J codec (keep_if p s.pending)) v.log
            ∙ (rw (deliveries-cut_log J codec (keep_if p s.pending), v.delivers) refl);
        exchange =
            cut_all J codec p s.pending opened v.log _ _ v.exchange d (λ j call e. e)
              (λ j. get-keep_if-not p j s.pending d);
      }

  -- Whatever sections run under the lock, in whatever order, the calls opened, the responses
  -- delivered and the pending requests are those of an exchange: each number is used for one
  -- call, only an open call is answered, by a response under its client's id or by the disconnect
  -- error, and the answer closes the call. The i64 counter must not have wrapped.
  pub Run-Refines :
      {opened : List (ℕ × Call)} {sent : List (ℕ × Response Value)} {s : BridgeState S}
      → Run J codec opened sent s
      → 10000 + length opened < 2 ^ 64
      → Refines opened sent s
  unfolding new add_extension Dict.get
  Run-Refines (started uuid) small = record {
    log = [];
    delivers = refl;
    exchange = opens_empty (λ j. refl);
  }
  Run-Refines (begun {opened} {sent} {s} others req s' sender ext_id asked r e) small =
      let fresh =
        begin_forward-fresh J codec (length opened) others s req s' sender ext_id asked
          (Run-Reachable J codec r) (omega (arith, small)) e in
      begun-Refines opened sent s s' ext_id (req.id, others.channel, asked)
        (λ m. omega (arith, fresh.0, Run-numbers r (omega (arith, small)) ext_id m))
        (begin_forward-pending J codec others s req s' sender ext_id asked e)
        (Run-Refines r (omega (arith, small)))
  Run-Refines (given_up {opened} {sent} {s} ext_id r) small =
      given_up-Refines opened sent s ext_id (Run-Refines r small)
  Run-Refines (answering {opened} {sent} {s} browser_id ext_id value r) small =
      answering-Refines opened sent s browser_id ext_id value (Run-Refines r small)
  Run-Refines (connected browser_id sender r) small =
      let v = Run-Refines r small in
      record { log = v.log; delivers = v.delivers; exchange = v.exchange }
  Run-Refines (disconnected {opened} {sent} {s} browser_id r) small =
      disconnected-Refines opened sent s browser_id (Run-HasDistinctKeys r) (Run-Refines r small)
  Run-Refines (in_session session r) small =
      let v = Run-Refines r small in
      record { log = v.log; delivers = v.delivers; exchange = v.exchange }
