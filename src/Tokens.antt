-- ===== src/Tokens.antt =====
-- bridge/src/token_manager.rs: the master token, the client tokens and their file. What the file
-- system answers, and the text of a fresh UUID, are arguments.
pub mod Validity
pub mod Persistence
use brp_spec.Base.{
  String, Bool, true, false, not, ◌&&◌, ◌||◌, Option, none, some, List, [], ◌∷◌, map, string_eq,
  ◌==◌, any, contains, keep_if, if◌then◌else◌, unwrap_or, and_then, Result, ok, err, ◌<>◌,
}
use brp_spec.Json.{SerdeJson}
use brp_spec.Auth.{ConstantTimeEq, secure_compare}

pub record TokenManager : Type 0 where
  pub master_token : String
  pub client_tokens : List String
  pub legacy_token : String

-- The contents of the token file and of the temporary file beside it, if they are there.
pub record Files : Type 0 where
  pub tokens_file : Option String
  pub tmp_file : Option String

-- Whether `create`, `write_all`, `sync_all`, `rename` and `remove_file` succeed; `partial` is what
-- a failed write leaves behind.
pub record DiskAnswers : Type 0 where
  pub created : Bool
  pub written : Bool
  pub synced : Bool
  pub renamed : Bool
  pub removed : Bool
  pub partial : String

-- `HashSet::insert` and `remove`
abbrev pub set_insert : String → List String → List String
set_insert t ts = if contains ts t then ts else t ∷ ts

abbrev pub set_remove : String → List String → List String
set_remove t = keep_if (λ x. not (x == t))

module _ (J : SerdeJson) where
  open J use {Value, get, as_str, as_array, text, array, object, from_str, to_string_pretty}

  -- The loop of the constructor over the `clients` of the file.
  unfoldable pub insert_all : List Value → List String → List String
  insert_all [] tokens = tokens
  insert_all (v ∷ vs) tokens =
      insert_all vs (elim (as_str v) [ none ↦ tokens | some t ↦ set_insert t tokens ])

  unfoldable pub new : String → Option String → String → TokenManager
  unfolding insert_all
  new master_token content legacy_token = record {
    master_token = master_token;
    client_tokens =
        insert_all
          (unwrap_or
            (and_then content
              λ c. and_then (from_str c) λ d. and_then (get d "clients") λ v. as_array v)
            [])
          [];
    legacy_token = legacy_token;
  }

  unfoldable pub file_value : TokenManager → Value
  file_value m =
      object (("master", text m.master_token) ∷ ("clients", array (map text m.client_tokens)) ∷ [])

  -- Written beside the file, then renamed over it; every failure is ignored.
  unfoldable pub save_to_file : TokenManager → DiskAnswers → Files → Files
  unfolding file_value
  save_to_file m io files =
      let content = to_string_pretty (file_value m) in
      if not io.created
      then files
      else if io.written && io.synced && io.renamed
      then record { tokens_file = some content; tmp_file = none }
      else record files {
        tmp_file = if io.removed then none else some (if io.written then content else io.partial);
      }

module _ (c : ConstantTimeEq) where
  unfoldable pub is_valid_token : TokenManager → String → Bool
  is_valid_token m provided =
      if provided == ""
      then false
      else if secure_compare c provided m.master_token
      then true
      else if any (secure_compare c provided) m.client_tokens
      then true
      else secure_compare c provided m.legacy_token

  unfoldable pub list_tokens : TokenManager → String → Result (List String) String
  list_tokens m requester =
      if not (secure_compare c requester m.master_token)
      then err "Master token required to list tokens"
      else ok m.client_tokens

module _ (J : SerdeJson) (c : ConstantTimeEq) where
  unfoldable pub issue_token :
      String
      → DiskAnswers
      → TokenManager × Files
      → String
      → (TokenManager × Files) × Result String String
  issue_token uuid io (m, files) requester =
      let new_token = "ct_" <> uuid in
      let m' = record m { client_tokens = set_insert new_token m.client_tokens } in
      if not (secure_compare c requester m.master_token)
      then ((m, files), err "Master token required to issue client tokens")
      else ((m', save_to_file J m' io files), ok new_token)

  unfoldable pub revoke_token :
      DiskAnswers
      → TokenManager × Files
      → String
      → String
      → (TokenManager × Files) × Result Unit String
  revoke_token io (m, files) requester token_to_revoke =
      let m' = record m { client_tokens = set_remove token_to_revoke m.client_tokens } in
      if not (secure_compare c requester m.master_token)
      then ((m, files), err "Master token required to revoke tokens")
      else if secure_compare c token_to_revoke m.master_token
      then ((m, files), err "Cannot revoke master token")
      else if contains m.client_tokens token_to_revoke
      then ((m', save_to_file J m' io files), ok tt)
      else ((m, files), err "Token not found")
