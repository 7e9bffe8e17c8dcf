-- ===== src/Config.antt =====
-- bridge/src/config.rs: the configuration that the environment gives, and the token file. The
-- environment, `PathBuf::join`, fresh UUIDs and what the disk answers are arguments.
pub mod Load
use Prim.Native.Char.{code}
use brp_spec.Base.{
  ℕ, ◌+◌, String, Bool, true, false, not, ◌&&◌, ◌||◌, Option, none, some, or_else, unwrap_or,
  and_then, string_eq, ◌==◌, leb, nat_beq, if◌then◌else◌, ◌<>◌,
}

-- `char::to_ascii_lowercase`, and the test of two texts by it.
abbrev to_ascii_lowercase : ℕ → ℕ
to_ascii_lowercase c = if leb b'A' c && leb c b'Z' then c + 32 else c

unfoldable pub eq_ignore_ascii_case : String → String → Bool
eq_ignore_ascii_case String.[] String.[] = true
eq_ignore_ascii_case (String.◌∷◌ c s) (String.◌∷◌ d t) =
    nat_beq (to_ascii_lowercase (code c)) (to_ascii_lowercase (code d)) && eq_ignore_ascii_case s t
eq_ignore_ascii_case _ _ = false

pub record BridgeConfig : Type 0 where
  pub ws_addr : String
  pub auth_token : String
  pub token_file_path : String
  pub standalone : Bool
  pub allow_script_execute : Bool
  pub master_token : String
  pub tokens_file_path : String

-- What the process finds: the platform, the variables, the directory for temporary files, and
-- `PathBuf::join`.
pub record Host : Type 0 where
  pub windows : Bool
  pub env_var : String → Option String
  pub temp_dir : String
  pub join : String → String → String

-- The permissions of a file: those that the process gives by default, or 0600.
pub data FileMode : Type 0 where
  by_default owner_only : FileMode

-- The token file and the temporary file beside it, if they are there.
pub record TokenDisk : Type 0 where
  pub token_file : Option (String × FileMode)
  pub tmp_file : Option (String × FileMode)

-- Whether each call succeeds; `partial` is what a failed write leaves behind.
pub record TokenAnswers : Type 0 where
  pub dir_made : Bool
  pub created : Bool
  pub written : Bool
  pub synced : Bool
  pub renamed : Bool
  pub restricted : Bool
  pub partial : String

-- `File::create` keeps the permissions of a file that is there.
abbrev pub mode_of : Option (String × FileMode) → FileMode
mode_of none = by_default
mode_of (some (content, mode)) = mode

-- The flag says whether it succeeds.
unfoldable pub write_token_to_file : Bool → String → TokenAnswers → TokenDisk → TokenDisk × Bool
write_token_to_file windows token io disk =
    let mode = mode_of disk.tmp_file in
    if not io.dir_made
    then (disk, false)
    else if not io.created
    then (disk, false)
    else if not io.written
    then (record disk { tmp_file = some (io.partial, mode) }, false)
    else if not (io.synced && io.renamed)
    then (record disk { tmp_file = some (token, mode) }, false)
    else if windows
    then (record { token_file = some (token, mode); tmp_file = none }, true)
    else if not io.restricted
    then (record { token_file = some (token, mode); tmp_file = none }, false)
    else (record { token_file = some (token, owner_only); tmp_file = none }, true)

abbrev in_app_data : Host → Option String
in_app_data host = if host.windows then host.env_var "APPDATA" else none

unfoldable pub default_token_path : Host → String
default_token_path host = elim (host.env_var "BRP_TOKEN_FILE") [
  | some p ↦ p
  | none ↦ elim (in_app_data host) [
    | some appdata ↦ host.join (host.join appdata "brp-bridge") "token"
    | none ↦ elim (host.env_var "HOME") [
      | some home ↦ host.join home ".brp-bridge-token"
      | none ↦ host.join host.temp_dir "brp-bridge-token"
    ]
  ]
]

unfoldable pub default_tokens_file_path : Host → String
default_tokens_file_path host = elim (host.env_var "BRP_TOKENS_FILE") [
  | some p ↦ p
  | none ↦ elim (in_app_data host) [
    | some appdata ↦ host.join (host.join appdata "brp-bridge") "tokens.json"
    | none ↦ elim (host.env_var "HOME") [
      | some home ↦ host.join (host.join home ".brp-bridge") "tokens.json"
      | none ↦ host.join host.temp_dir "brp-bridge-tokens.json"
    ]
  ]
]

-- A variable that is set and not empty.
unfoldable pub set_text : Host → String → Option String
set_text host key = and_then (host.env_var key) λ t. if t == "" then none else some t

unfoldable pub flag : Host → String → Bool
unfolding eq_ignore_ascii_case
flag host key = elim (host.env_var key) [
  | none ↦ false
  | some v ↦ v == "1" || eq_ignore_ascii_case v "true"
]

-- The two fresh UUIDs are used where the variables give no token; the first is written to the
-- token file, and a failure of that is ignored.
unfoldable pub load : Host → String → String → TokenAnswers → TokenDisk → TokenDisk × BridgeConfig
unfolding write_token_to_file default_token_path default_tokens_file_path set_text flag
load host uuid uuid' io disk =
    let found = set_text host "BRP_AUTH_TOKEN" in
    let disk' : TokenDisk = elim found [
      | some t ↦ disk
      | none ↦ (write_token_to_file host.windows uuid io disk).0
    ] in
    (
      disk',
      record {
        ws_addr = unwrap_or (host.env_var "BRP_WS_ADDR") "127.0.0.1:9817";
        auth_token = unwrap_or found uuid;
        token_file_path = default_token_path host;
        standalone = flag host "BRP_STANDALONE";
        allow_script_execute = flag host "BRP_ALLOW_SCRIPT_EXECUTE";
        master_token = unwrap_or (set_text host "BRP_MASTER_TOKEN") ("mt_" <> uuid');
        tokens_file_path = default_tokens_file_path host;
      },
    )
