-- ===== src/Examples/Access.antt =====
-- Tokens, origins, JSON limits and the rate limiter at concrete inputs.
use brp_spec.Base.{
  ◌≤◌, String, ◌≡◌, ◌≢◌, ◌↔◌, ◌⊎◌, refl, true, false, none, some, [], ◌∷◌, arith, ok, In,
}
use brp_spec.Auth.{validate_json_depth}
use brp_spec.Auth.Depth.{IsBounded, validate_json_depth_iff}
use brp_spec.RateLimit.{RateLimiter, new, check_connection, max_connections_per_second}
use brp_spec.RateLimit.Window.{History, start, accepts, count, within, window_bound}
use brp_spec.Tokens
use brp_spec.Tokens.{
  TokenManager, Files, DiskAnswers, is_valid_token, issue_token, save_to_file, file_value,
}
use brp_spec.Tokens.Validity.{IsAccepted}
use brp_spec.Tokens.Persistence.{restart_accepts}
use brp_spec.Examples.Values.{json, json_laws, register_value}

abbrev master : String
master = "mt_1"

abbrev client : String
client = "ct_1"

abbrev one_client : TokenManager
one_client = record { master_token = "mt_1"; client_tokens = "ct_1" ∷ []; legacy_token = "" }

abbrev old_files : Files
old_files = record { tokens_file = some "old"; tmp_file = none }

abbrev all_fine : DiskAnswers
all_fine = record {
  created = true;
  written = true;
  synced = true;
  renamed = true;
  removed = true;
  partial = "";
}

abbrev full_disk : DiskAnswers
full_disk = record all_fine { written = false; partial = "tok" }

validate_json_depth_iff_example :
    (validate_json_depth json register_value 2 ≡ true) ↔ IsBounded json register_value 2
validate_json_depth_iff_example = validate_json_depth_iff json register_value 2

tokens_read_back :
    json.from_str (json.to_string_pretty (file_value json one_client))
    ≡ some (file_value json one_client)
unfolding file_value
tokens_read_back = refl

restart_accepts_example : IsAccepted (Tokens.new json "mt_2" (some "tokens") "lt_2") client ↔ (
    (client ≢ "") × (In client one_client.client_tokens ⊎ ((client ≡ "mt_2") ⊎ (client ≡ "lt_2"))))
restart_accepts_example =
    restart_accepts json json_laws one_client "mt_2" "lt_2" tokens_read_back client

abbrev limiter_1 : RateLimiter
limiter_1 = record { recent_connections = 7 ∷ []; unauthenticated_count = 1 }

first_accepted : check_connection new 7 ≡ (limiter_1, ok tt)
unfolding check_connection new
first_accepted = refl

one_accepted : History limiter_1 7 (7 ∷ [])
one_accepted = accepts 7 start (omega arith) first_accepted

window_bound_example : count (within 5) (7 ∷ []) ≤ max_connections_per_second
window_bound_example = window_bound 5 one_accepted
