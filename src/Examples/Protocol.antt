-- ===== src/Examples/Protocol.antt =====
-- The session and its negotiation at concrete inputs.
use brp_spec.Base.{
  ◌<◌, ◌^◌, ◌≡◌, ◌⊎◌, refl, true, none, some, List, [], ◌∷◌, starts_with, ends_with, drop_last,
  split, arith,
}
use brp_spec.Base.U32.{parse_u32}
use brp_spec.Session.{new}
use brp_spec.Session.SessionState.{disconnected, ready, closing, closed}
use brp_spec.Session.Version.{parse_semver}
use brp_spec.Session.Negotiation.{Capabilities, bridge_default, covers, negotiate}
use brp_spec.Session.Grants.{grants, grants-negotiate}
use brp_spec.Session.Lifecycle.{
  SessionCall, initializes, shuts_down, emits, run, emits_in, run-new-state,
}

abbrev tab_client : Capabilities
tab_client = record {
  features = [];
  actions = "tab.*" ∷ "shell.run" ∷ [];
  tree_delta_supported = true;
  multi_session = true;
  max_request_size = none;
}

tab_list_granted : grants (negotiate bridge_default tab_client).actions "tab.list" ≡ true
unfolding grants negotiate bridge_default covers starts_with ends_with drop_last
tab_list_granted = refl

grants-negotiate_example : grants bridge_default.actions "tab.list" ≡ true
grants-negotiate_example = grants-negotiate bridge_default tab_client "tab.list" tab_list_granted

wide : covers "tab.*" "tab.a.*" ≡ true
unfolding covers starts_with ends_with drop_last
wide = refl

narrow : covers "tab.a.*" "tab.a.b" ≡ true
unfolding covers starts_with ends_with drop_last
narrow = refl

client_semver : parse_semver "0.12.3" ≡ some (0, 12, 3)
unfolding parse_semver split parse_u32
client_semver = refl

bridge_semver : parse_semver "0.7.1" ≡ some (0, 7, 1)
unfolding parse_semver split parse_u32
bridge_semver = refl

abbrev some_calls : List SessionCall
some_calls =
    emits
    ∷ initializes
        (record { protocol_version = "0.1.0"; client_info = none; capabilities = some tab_client })
    ∷ emits
    ∷ shuts_down
    ∷ emits
    ∷ []

few_emits : emits_in some_calls < 2 ^ 64
few_emits = omega arith

run-new-state_example :
    let state = (run (new "s1") some_calls).state in
    (state ≡ disconnected) ⊎ ((state ≡ ready) ⊎ ((state ≡ closing) ⊎ (state ≡ closed)))
run-new-state_example = run-new-state "s1" some_calls
