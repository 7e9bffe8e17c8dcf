-- ===== src/Examples/Commands.antt =====
-- A whole run of the program at a concrete command line.
use brp_spec.Base.{ℕ, String, true, none, List, [], ◌∷◌, string_eq}
use brp_spec.Main.Dispatch.{MainWorld}
use brp_spec.Examples.Values.{Value}
use brp_spec.Examples.Forwarding.{files}
use brp_spec.Examples.Startup.{host, token_answers, bootstrap_world, bridge_world, rounds}

abbrev main_world : MainWorld ℕ Value
main_world = record {
  little = true;
  input = [];
  writes = λ i. true;
  host = host;
  uuid = "u1";
  second_uuid = "u2";
  session_uuid = "u3";
  at_load = token_answers;
  bootstrap_world = bootstrap_world;
  bridge_world = bridge_world;
  tokens_file = none;
  files = files;
  rounds = rounds;
}

abbrev as_bootstrap : List String
as_bootstrap = "brp-bridge" ∷ "--mode=bootstrap" ∷ []
