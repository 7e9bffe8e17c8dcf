-- ===== src/Tokens/Validity.antt =====
-- bridge/src/token_manager.rs: which tokens are valid, and what issuing and revoking change.
use brp_spec.Base.{
  String, Option, some, ◌&&◌, if◌then◌else◌, ◌≡◌, ◌≢◌, ◌↔◌, ◌⊎◌, inl, inr, refl, true, List, [],
  ◌∷◌, arith, eq_iff, Bool-cases, In, any, contains, contains_iff, string_eq, ◌<>◌, ok, err,
}
use brp_spec.Json.{SerdeJson}
use brp_spec.Auth.{ConstantTimeEq, secure_compare}
use brp_spec.Auth.Compare.{secure_compare_iff}
use brp_spec.Tokens.{
  TokenManager, Files, DiskAnswers, is_valid_token, issue_token, set_insert, file_value,
}

-- The tokens that open a connection.
abbrev pub IsAccepted : TokenManager → String → Type 0
IsAccepted m t = (t ≢ "") × ((t ≡ m.master_token) ⊎ (In t m.client_tokens ⊎ (t ≡ m.legacy_token)))

module _ (c : ConstantTimeEq) where
  any_iff : (t : String) (ts : List String) → (any (secure_compare c t) ts ≡ true) ↔ In t ts
  any_iff t [] = (λ h. cc, λ h. absurd h)
  any_iff t (x ∷ xs) = ground (arith, secure_compare_iff c t x, any_iff t xs)

  -- A token is valid exactly if it is not empty and is the master token, a client token or the
  -- legacy token.
  pub is_valid_token_iff :
      (m : TokenManager) (t : String) → (is_valid_token c m t ≡ true) ↔ IsAccepted m t
  unfolding is_valid_token
  is_valid_token_iff m t = ground (
    arith,
    eq_iff t "",
    secure_compare_iff c t m.master_token,
    secure_compare_iff c t m.legacy_token,
    any_iff t m.client_tokens,
  )

pub In-set_insert : (t u : String) (ts : List String) → In u (set_insert t ts) ↔ ((u ≡ t) ⊎ In u ts)
In-set_insert t u ts = elim (Bool-cases (contains ts t)) [
  | inl old ↦ rw old (inr, λ h. elim h [ inl e ↦ rw e ((contains_iff t ts).0 old) | inr m ↦ m ])
  | inr fresh ↦ rw fresh (ground arith)
]

IsAccepted-issued :
    (m : TokenManager) (t u : String)
    → t ≢ ""
    → IsAccepted (record m { client_tokens = set_insert t m.client_tokens }) u
      ↔ ((u ≡ t) ⊎ IsAccepted m u)
IsAccepted-issued m t u h = ground (arith, In-set_insert t u m.client_tokens)

module _ (J : SerdeJson) where
  -- The token file after a save: the complete new one if every call succeeded, else the old one.
  abbrev pub saved_file : TokenManager → DiskAnswers → Files → Option String
  saved_file m io files =
      if io.created && io.written && io.synced && io.renamed
      then some (J.to_string_pretty (file_value J m))
      else files.tokens_file

module _ (J : SerdeJson) (c : ConstantTimeEq) where
  -- `issue_token` for a requester with the master token returns `ct_` and the UUID, and afterwards
  -- exactly that token and those accepted before are accepted; for any other requester it is an
  -- error that changes neither the tokens nor the files.
  issue_token-effect :
      (uuid : String) (io : DiskAnswers) (m : TokenManager) (files : Files) (requester : String)
      → let r = issue_token J c uuid io (m, files) requester in
        ((requester ≡ m.master_token)
          × (r.1 ≡ ok ("ct_" <> uuid))
          × (r.0.0.master_token ≡ m.master_token)
          × ((u : String) → IsAccepted r.0.0 u ↔ ((u ≡ "ct_" <> uuid) ⊎ IsAccepted m u)))
        ⊎ ((requester ≢ m.master_token)
            × (r ≡ ((m, files), err "Master token required to issue client tokens")))
  unfolding issue_token
  issue_token-effect uuid io m files requester =
      elim (Bool-cases (secure_compare c requester m.master_token)) [
        | inl master ↦ rw master (
            inl (
              (secure_compare_iff c requester m.master_token).0 master,
              refl,
              refl,
              λ u. IsAccepted-issued m ("ct_" <> uuid) u (λ e. cc),
            ))
        | inr other ↦
            rw other (inr (ground (arith, secure_compare_iff c requester m.master_token), refl))
      ]
