-- ===== src/Session/Negotiation.antt =====
-- bridge/src/protocol/session.rs: capabilities and their negotiation.
use brp_spec.Base.{
  ℕ, ◌*◌, String, Bool, false, ◌&&◌, Option, none, some, List, [], ◌∷◌, string_eq, ◌==◌, keep_if,
  any, contains, is_empty, if◌then◌else◌, starts_with, ends_with, drop_last,
}

pub record Capabilities : Type 0 where
  pub features : List String
  pub actions : List String
  pub tree_delta_supported : Bool
  pub multi_session : Bool
  pub max_request_size : Option ℕ

-- `#[derive(Default)]`
abbrev pub default : Capabilities
default = record {
  features = [];
  actions = [];
  tree_delta_supported = false;
  multi_session = false;
  max_request_size = none;
}

unfoldable pub bridge_default : Capabilities
bridge_default = record {
  features = "interactionTree" ∷ "events" ∷ "screenshot" ∷ [];
  actions =
      "page.*" ∷ "tab.*" ∷ "element.click" ∷ "element.type" ∷ "element.fill" ∷ "screenshot.capture"
      ∷ "script.execute" ∷ [];
  tree_delta_supported = false;
  multi_session = false;
  max_request_size = some (10 * 1024 * 1024);
}

-- Whether the bridge's entry `ba` lets the client's action `a` through.
unfoldable pub covers : String → String → Bool
covers ba a = if ends_with ba ".*" then starts_with a (drop_last ba) else ba == a

unfoldable pub negotiate : Capabilities → Capabilities → Capabilities
negotiate own client_caps =
    let features = keep_if (λ f. contains own.features f) client_caps.features in
    let actions = keep_if (λ a. any (λ ba. covers ba a) own.actions) client_caps.actions in
    record {
      features = if is_empty features then own.features else features;
      actions = if is_empty actions then own.actions else actions;
      tree_delta_supported = own.tree_delta_supported && client_caps.tree_delta_supported;
      multi_session = own.multi_session && client_caps.multi_session;
      max_request_size = own.max_request_size;
    }
