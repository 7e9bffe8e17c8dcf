-- ===== src/Examples/Exchanges.antt =====
-- A run of the bridge at concrete inputs.
use brp_spec.Base.{ℕ, ◌+◌, ◌<◌, ◌^◌, List, [], ◌∷◌, ◌++◌, arith}
use brp_spec.Message.{number, Response}
use brp_spec.Router.State.{BridgeState}
use brp_spec.Exchange.{Call}
use brp_spec.Exchange.Once.{AllDistinct}
use brp_spec.Exchange.Runs.{Run, started, in_session, connected, begun, disconnected}
use brp_spec.Exchange.Refines.{Refines, Run-Refines}
use brp_spec.Exchange.Channels.{channels, reached, Run-reaches_once}
use brp_spec.WsServer.Extension.{disconnect}
use brp_spec.Examples.Values.{Value, json, codec}
use brp_spec.Examples.Forwarding.{ready_session, tab_list, others}
use brp_spec.Examples.Answers.{waiting_state, tab_list_begun}

-- The extension `zen` goes while a request waits for it.
abbrev opened : List (ℕ × Call)
opened = (10000, (number 7, 40, "zen")) ∷ []

abbrev said : List (ℕ × Response Value)
said = (disconnect json codec "zen" waiting_state).delivered ++ []

abbrev final_state : BridgeState ℕ
final_state = (disconnect json codec "zen" waiting_state).state

zen_gone : Run json codec opened said final_state
zen_gone = disconnected "zen" (
    begun others tab_list waiting_state 3 10000 "zen"
      (connected "zen" 3 (in_session ready_session (started "s1"))) tab_list_begun)

few_calls : 10000 + 1 < 2 ^ 64
few_calls = omega arith

Run-Refines_example : Refines json codec opened said final_state
Run-Refines_example = Run-Refines json codec zen_gone few_calls

own_channels : AllDistinct (channels opened)
own_channels = (λ h. absurd h, tt)

Run-reaches_once_example : AllDistinct (reached said)
Run-reaches_once_example = Run-reaches_once json codec zen_gone few_calls own_channels
