-- ===== src/WsServer/Numbers.antt =====
-- bridge/src/router.rs and bridge/src/ws_server.rs: the numbers of requests in flight, over all
-- interleavings of the sections that the bridge runs under its lock.
use native.Mathlib.Omega.{arith}
use brp_spec.Base.{
  ℕ, suc, ◌+◌, ◌^◌, ◌≤◌, ◌<◌, String, none, some, [], ◌∷◌, nat_eq, Option-cases, ◌≡◌, refl, ap, ◌∙◌,
  keep_if, Bool, Bool-cases, inl, inr,
}
use brp_spec.Base.Dict
use brp_spec.Base.Dict.{Dict}
use brp_spec.Json.{SerdeJson}
use brp_spec.Message.{Request, Codec}
use brp_spec.Session.{Session}
use brp_spec.Router.State.{
  BridgeState, new, add_extension, remove_extension, forget, get_sender, next_ext_request_id,
}
use brp_spec.Router.Forward.{Others, begin_forward, target_browser}
use brp_spec.WsServer.Extension.{on_answer, disconnect}
use brp_spec.WsServer.Delivery.{on_answer-state, on_answer-pending, begin_forward-pending}

pub get-keep_if :
    {V : Type 0} (p : ℕ × V → Bool) (j : ℕ) (m : Dict ℕ V)
    → Dict.get j m ≡ none
    → Dict.get j (keep_if p m) ≡ none
unfolding Dict.get
get-keep_if p j [] h = refl
get-keep_if p j ((i, v) ∷ m) h = elim (Bool-cases (p (i, v))) [
  | inl t ↦ rw t (ground (arith, h, get-keep_if p j m))
  | inr f ↦ rw f (ground (arith, h, get-keep_if p j m))
]

module _ {S : Type 0} (J : SerdeJson) (codec : Codec J) where
  open J use {Value}

  -- The states of the bridge after any sequence of sections under the lock, with the number of
  -- requests begun.
  pub data Reachable : ℕ → BridgeState S → Type 1 where
    started : (uuid : String) → Reachable 0 (new uuid)
    begun :
        {n : ℕ} {s : BridgeState S} (others : Others S Value) (req : Request Value)
        (s' : BridgeState S) (sender : S) (ext_id : ℕ) (asked : String)
        → Reachable n s
        → begin_forward J others s req ≡ some (s', sender, ext_id, asked)
        → Reachable (suc n) s'
    given_up :
        {n : ℕ} {s : BridgeState S} (ext_id : ℕ) → Reachable n s → Reachable n (forget ext_id s)
    answering :
        {n : ℕ} {s : BridgeState S} (browser_id : String) (ext_id : ℕ) (value : Value)
        → Reachable n s
        → Reachable n (on_answer J codec browser_id ext_id value s).state
    connected :
        {n : ℕ} {s : BridgeState S} (browser_id : String) (sender : S)
        → Reachable n s
        → Reachable n (add_extension browser_id sender s)
    disconnected :
        {n : ℕ} {s : BridgeState S} (browser_id : String)
        → Reachable n s
        → Reachable n (disconnect J codec browser_id s).state
    in_session :
        {n : ℕ} {s : BridgeState S} (session : Session)
        → Reachable n s
        → Reachable n (record s { session = session })

  pub record IsNumbered (n : ℕ) (s : BridgeState S) : Type 0 where
    pub counted : s.next_ext_id ≡ 10000 + n
    pub unused : (j : ℕ) → 10000 + n ≤ j → Dict.get j s.pending ≡ none

  begin_forward-counter :
      (others : Others S Value) (s : BridgeState S) (req : Request Value) (s' : BridgeState S)
      (sender : S) (ext_id : ℕ) (asked : String)
      → begin_forward J others s req ≡ some (s', sender, ext_id, asked)
      → suc s.next_ext_id < 2 ^ 64
      → (ext_id ≡ s.next_ext_id) × (s'.next_ext_id ≡ suc s.next_ext_id)
  unfolding begin_forward next_ext_request_id
  begin_forward-counter others s req s' sender ext_id asked e small =
      ground (arith, e, small, Option-cases (get_sender others.pick s (target_browser J req)))

  on_answer-counter :
      (browser_id : String) (ext_id : ℕ) (value : Value) (s : BridgeState S)
      → (on_answer J codec browser_id ext_id value s).state.next_ext_id ≡ s.next_ext_id
  on_answer-counter browser_id ext_id value s =
      ap (λ (t : BridgeState S). t.next_ext_id) (on_answer-state J codec browser_id ext_id value s)

  pub Reachable-IsNumbered :
      (n : ℕ) (s : BridgeState S) → Reachable n s → 10000 + n < 2 ^ 64 → IsNumbered n s
  unfolding Dict.get new disconnect add_extension remove_extension
  Reachable-IsNumbered _ _ (started uuid) small = record { counted = refl; unused = λ j le. refl }
  Reachable-IsNumbered _ _ (begun {n} {s} others req s' sender ext_id asked r e) small =
      let v = Reachable-IsNumbered n s r (omega arith) in
      let (a, b) =
        begin_forward-counter others s req s' sender ext_id asked e (omega (arith, v.counted)) in
      record {
        counted = omega (arith, v.counted, b);
        unused = λ j le.
            begin_forward-pending J codec others s req s' sender ext_id asked e j
            ∙ ground (arith, v.unused j, v.counted, a);
      }
  Reachable-IsNumbered _ _ (given_up {n} {s} ext_id r) small =
      let v = Reachable-IsNumbered n s r small in
      record {
        counted = v.counted;
        unused = λ j le. Dict.get-remove ext_id j s.pending ∙ ground (arith, v.unused j);
      }
  Reachable-IsNumbered _ _ (answering {n} {s} browser_id ext_id value r) small =
      let v = Reachable-IsNumbered n s r small in
      record {
        counted = on_answer-counter browser_id ext_id value s ∙ v.counted;
        unused = λ j le.
            on_answer-pending J codec browser_id ext_id value s j ∙ ground (arith, v.unused j);
      }
  Reachable-IsNumbered _ _ (connected {n} {s} browser_id sender r) small =
      let v = Reachable-IsNumbered n s r small in record { counted = v.counted; unused = v.unused }
  Reachable-IsNumbered _ _ (disconnected {n} {s} browser_id r) small =
      let v = Reachable-IsNumbered n s r small in
      record { counted = v.counted; unused = λ j le. get-keep_if _ j s.pending (v.unused j le) }
  Reachable-IsNumbered _ _ (in_session {n} {s} session r) small =
      let v = Reachable-IsNumbered n s r small in record { counted = v.counted; unused = v.unused }

  -- Over any interleaving of the sections under the lock, the n-th request (counted from 0) is
  -- forwarded under the number 10000 + n, which no pending request has, as long as the i64
  -- counter has not wrapped: two requests in flight never share a number.
  pub begin_forward-fresh :
      (n : ℕ) (others : Others S Value) (s : BridgeState S) (req : Request Value)
      (s' : BridgeState S) (sender : S) (ext_id : ℕ) (asked : String)
      → Reachable n s
      → 10001 + n < 2 ^ 64
      → begin_forward J others s req ≡ some (s', sender, ext_id, asked)
      → (ext_id ≡ 10000 + n) × (Dict.get ext_id s.pending ≡ none)
  begin_forward-fresh n others s req s' sender ext_id asked r small e =
      let v = Reachable-IsNumbered n s r (omega arith) in
      let (a, b) =
        begin_forward-counter others s req s' sender ext_id asked e (omega (arith, v.counted)) in
      (a ∙ v.counted, v.unused ext_id (omega (arith, a, v.counted)))
