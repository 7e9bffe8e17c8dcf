-- ===== src/Exchange/Runs.antt =====
-- bridge/src/router.rs and bridge/src/ws_server.rs: the sections that the bridge runs under its
-- lock, in any order, with the calls they open and the responses they deliver.
use brp_spec.Base.{ℕ, String, some, List, [], ◌∷◌, ◌++◌, length, ◌≡◌}
use brp_spec.Json.{SerdeJson}
use brp_spec.Message.{Request, Response, Codec}
use brp_spec.Session.{Session}
use brp_spec.Router.State.{BridgeState, new, add_extension, forget}
use brp_spec.Router.Forward.{Others, begin_forward}
use brp_spec.WsServer.Extension.{on_answer, disconnect}
use brp_spec.WsServer.Numbers.{Reachable}
use brp_spec.Exchange.{Call}

module _ {S : Type 0} (J : SerdeJson) (codec : Codec J) where
  open J use {Value}

  -- The calls opened and the responses delivered, both newest first, and the state.
  pub data Run : List (ℕ × Call) → List (ℕ × Response Value) → BridgeState S → Type 1 where
    started : (uuid : String) → Run [] [] (new uuid)
    begun :
        {opened : List (ℕ × Call)} {sent : List (ℕ × Response Value)} {s : BridgeState S}
        (others : Others S Value) (req : Request Value) (s' : BridgeState S) (sender : S)
        (ext_id : ℕ) (asked : String)
        → Run opened sent s
        → begin_forward J others s req ≡ some (s', sender, ext_id, asked)
        → Run ((ext_id, (req.id, others.channel, asked)) ∷ opened) sent s'
    given_up :
        {opened : List (ℕ × Call)} {sent : List (ℕ × Response Value)} {s : BridgeState S}
        (ext_id : ℕ)
        → Run opened sent s
        → Run opened sent (forget ext_id s)
    answering :
        {opened : List (ℕ × Call)} {sent : List (ℕ × Response Value)} {s : BridgeState S}
        (browser_id : String) (ext_id : ℕ) (value : Value)
        → Run opened sent s
        → Run opened
            ((on_answer J codec browser_id ext_id value s).delivered ++ sent)
            (on_answer J codec browser_id ext_id value s).state
    connected :
        {opened : List (ℕ × Call)} {sent : List (ℕ × Response Value)} {s : BridgeState S}
        (browser_id : String) (sender : S)
        → Run opened sent s
        → Run opened sent (add_extension browser_id sender s)
    disconnected :
        {opened : List (ℕ × Call)} {sent : List (ℕ × Response Value)} {s : BridgeState S}
        (browser_id : String)
        → Run opened sent s
        → Run opened
            ((disconnect J codec browser_id s).delivered ++ sent)
            (disconnect J codec browser_id s).state
    in_session :
        {opened : List (ℕ × Call)} {sent : List (ℕ × Response Value)} {s : BridgeState S}
        (session : Session)
        → Run opened sent s
        → Run opened sent (record s { session = session })

  pub Run-Reachable :
      {opened : List (ℕ × Call)} {sent : List (ℕ × Response Value)} {s : BridgeState S}
      → Run opened sent s
      → Reachable J codec (length opened) s
  Run-Reachable (started uuid) = Reachable.started uuid
  Run-Reachable (begun others req s' sender ext_id asked r e) =
      Reachable.begun others req s' sender ext_id asked (Run-Reachable r) e
  Run-Reachable (given_up ext_id r) = Reachable.given_up ext_id (Run-Reachable r)
  Run-Reachable (answering browser_id ext_id value r) =
      Reachable.answering browser_id ext_id value (Run-Reachable r)
  Run-Reachable (connected browser_id sender r) =
      Reachable.connected browser_id sender (Run-Reachable r)
  Run-Reachable (disconnected browser_id r) = Reachable.disconnected browser_id (Run-Reachable r)
  Run-Reachable (in_session session r) = Reachable.in_session session (Run-Reachable r)
