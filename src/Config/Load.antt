-- ===== src/Config/Load.antt =====
-- bridge/src/config.rs: what the configuration is good for.
use brp_spec.Base.{
  String, true, not, ◌&&◌, Option, some, unwrap_or, is_some, if◌then◌else◌, string_eq, ◌≡◌, ◌≢◌,
  inl, inr, refl, Option-cases, arith, eq_iff, ◌<>◌,
}
use brp_spec.Json.{SerdeJson}
use brp_spec.Auth.{ConstantTimeEq}
use brp_spec.Tokens.{new, is_valid_token}
use brp_spec.Tokens.Validity.{is_valid_token_iff}
use brp_spec.Config.{Host, TokenAnswers, TokenDisk, FileMode, owner_only, mode_of, set_text, load}

set_text-ne : (host : Host) (key d : String) → d ≢ "" → unwrap_or (set_text host key) d ≢ ""
unfolding set_text
set_text-ne host key d h = elim (Option-cases (host.env_var key)) [
  | inl e ↦ rw (e, set_text) h
  | inr (t, e) ↦ rw (e, set_text) (λ z. ground (arith, z, eq_iff t "", h))
]

module _ (J : SerdeJson) (c : ConstantTimeEq) where
  -- Whatever the environment, the token file and the disk are, a manager made from the
  -- configuration accepts the configuration's authentication token and its master token, where
  -- the fresh UUID that stands in for a missing authentication token is not the empty text.
  pub load-accepted :
      (host : Host) (uuid uuid' : String) (io : TokenAnswers) (disk : TokenDisk)
      (content : Option String)
      → uuid ≢ ""
      → let config = (load host uuid uuid' io disk).1 in
        let m = new J config.master_token content config.auth_token in
        (is_valid_token c m config.auth_token ≡ true)
        × (is_valid_token c m config.master_token ≡ true)
  unfolding load new
  load-accepted host uuid uuid' io disk content h =
      let host_token = set_text host "BRP_AUTH_TOKEN" in
      let host_master = set_text host "BRP_MASTER_TOKEN" in
      let auth = set_text-ne host "BRP_AUTH_TOKEN" uuid h in
      let master = set_text-ne host "BRP_MASTER_TOKEN" ("mt_" <> uuid') (λ z. cc) in
      let m = new J (unwrap_or host_master ("mt_" <> uuid')) content (unwrap_or host_token uuid) in
      (
        ground (arith, is_valid_token_iff c m (unwrap_or host_token uuid), auth),
        ground (arith, is_valid_token_iff c m (unwrap_or host_master ("mt_" <> uuid')), master),
      )

-- The permissions of a new token file.
abbrev pub new_mode : Host → TokenAnswers → TokenDisk → FileMode
new_mode host io disk =
    if not host.windows && io.restricted then owner_only else mode_of disk.tmp_file

-- The token file when the configuration has been loaded. A token from the environment leaves the
-- disk as it was. A generated one is in the file whole if the calls up to the rename succeed, with
-- the permissions 0600 if the platform is not Windows and setting them succeeds, and else with
-- those of the temporary file; if one of the calls up to the rename fails, the old file is there
-- as it was.
load-token_file :
    (host : Host) (uuid uuid' : String) (io : TokenAnswers) (disk : TokenDisk)
    → (load host uuid uuid' io disk).0.token_file ≡ (
        if is_some (set_text host "BRP_AUTH_TOKEN")
        then disk.token_file
        else if io.dir_made && io.created && io.written && io.synced && io.renamed
        then some (uuid, new_mode host io disk)
        else disk.token_file)
unfolding load
load-token_file host uuid uuid' io disk = elim (Option-cases (set_text host "BRP_AUTH_TOKEN")) [
  | inr (t, e) ↦ rw (e, load) refl
  | inl e ↦ rw (e, load) (ground arith)
]
