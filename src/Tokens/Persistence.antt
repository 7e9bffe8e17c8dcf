-- ===== src/Tokens/Persistence.antt =====
-- bridge/src/token_manager.rs: what the token file holds after a save, and what a restart reads.
use brp_spec.Base.{String, ◌≡◌, ◌≢◌, ◌↔◌, ◌⊎◌, some, List, [], ◌∷◌, map, arith, In}
use brp_spec.Json.{SerdeJson, SerdeLaws}
use brp_spec.Tokens.{TokenManager, new, insert_all, file_value, set_insert}
use brp_spec.Tokens.Validity.{IsAccepted, In-set_insert}

module _ (J : SerdeJson) where
  open J use {Value, text, array, from_str, to_string_pretty}

  module _ (L : SerdeLaws J) where
    In-insert_all :
        (u : String) (ts tokens : List String)
        → In u (insert_all J (map text ts) tokens) ↔ (In u ts ⊎ In u tokens)
    unfolding insert_all
    In-insert_all u [] tokens = ground arith
    In-insert_all u (t ∷ ts) tokens =
        rw (L.as_str-text t, insert_all)
          (ground (arith, In-insert_all u ts (set_insert t tokens), In-set_insert t u tokens))

    clients_of_file :
        (m : TokenManager) (master legacy : String)
        → from_str (to_string_pretty (file_value J m)) ≡ some (file_value J m)
        → (new J master (some (to_string_pretty (file_value J m))) legacy).client_tokens
          ≡ insert_all J (map text m.client_tokens) []
    unfolding new file_value
    clients_of_file m master legacy h = rw (h, L.get-object, L.as_array-array)

    -- A restart from a file that a save wrote, with any master and legacy tokens: it accepts the
    -- non-empty ones among the client tokens that were saved and these two, and no others. So every
    -- client token outlives the restart, and an old master or legacy token does only if it is given
    -- again or was a client token. The accessors of JSON must do what they document, and the printed
    -- JSON of the file must be read back.
    pub restart_accepts :
        (m : TokenManager) (master legacy : String)
        → from_str (to_string_pretty (file_value J m)) ≡ some (file_value J m)
        → (u : String)
        → IsAccepted (new J master (some (to_string_pretty (file_value J m))) legacy) u
          ↔ ((u ≢ "") × (In u m.client_tokens ⊎ ((u ≡ master) ⊎ (u ≡ legacy))))
    unfolding new
    restart_accepts m master legacy h u =
        let same = clients_of_file m master legacy h in
        ground (arith, same, In-insert_all u m.client_tokens [])
