-- ===== src/Session/Version.antt =====
-- bridge/src/protocol/session.rs: protocol version negotiation.
use brp_spec.Base.{
  ℕ, zero, suc, ◌<◌, min, String, ◌≡◌, ◌≢◌, ◌⊎◌, inl, inr, refl, ap, ◌∙◌, Option, none, some, List,
  [], ◌∷◌, arith, ◌<>◌, split, nat_beq, ◌&&◌, and_then, if◌then◌else◌,
}
use brp_spec.Base.U32.{show, parse_u32, parse_u32-show, split-show, parse_u32-lt, u32_limit}

abbrev pub bridge_protocol_version : String
bridge_protocol_version = "0.1.0"

abbrev pub SemVer : Type 0
SemVer = ℕ × ℕ × ℕ

-- The three parses, each with its `?`.
abbrev pub parse_parts : List String → Option SemVer
parse_parts (a ∷ b ∷ c ∷ []) = and_then (parse_u32 a) λ major.
    and_then (parse_u32 b) λ minor. and_then (parse_u32 c) λ patch. some (major, minor, patch)
parse_parts _ = none

unfoldable pub parse_semver : String → Option SemVer
parse_semver v = parse_parts (split b'.' v)

-- The match of `negotiate_version` on the two parsed versions.
unfoldable pub choose_version : Option SemVer → Option SemVer → String → String
choose_version (some (c_major, c_minor, c_patch)) (some (b_major, b_minor, b_patch))
      bridge_version =
    if nat_beq c_major 0 && nat_beq b_major 0
    then "0." <> show (min c_minor b_minor) <> ".0"
    else if nat_beq c_major b_major
    then bridge_version
    else bridge_version
choose_version _ _ bridge_version = bridge_version

unfoldable pub negotiate_version : String → String → String
unfolding choose_version
negotiate_version client_version bridge_version =
    choose_version (parse_semver client_version) (parse_semver bridge_version) bridge_version

split_zero : (t : String) → split b'.' ("0." <> t) ≡ "0" ∷ split b'.' t
unfolding split
split_zero t = refl

parts_minor : (n : ℕ) → n < u32_limit → parse_parts ("0" ∷ show n ∷ "0" ∷ []) ≡ some (0, n, 0)
unfolding parse_u32
parts_minor n h = rw (parse_u32-show n h)

-- The text that the bridge prints for a 0.x version is read back.
parse_semver-minor :
    (n : ℕ) → n < u32_limit → parse_semver ("0." <> show n <> ".0") ≡ some (0, n, 0)
unfolding parse_semver split
parse_semver-minor n h =
    ap parse_parts
      (split_zero (show n <> ".0") ∙ ap (λ ps. "0" ∷ ps) (split-show n ".0" ("0" ∷ []) refl))
    ∙ parts_minor n h

parse_parts-minor-lt :
    (parts : List String) (major minor patch : ℕ)
    → parse_parts parts ≡ some (major, minor, patch)
    → minor < u32_limit
parse_parts-minor-lt (a ∷ b ∷ c ∷ []) major minor patch h = ground (arith, parse_u32-lt b minor)
parse_parts-minor-lt parts major minor patch h = cc

parse_semver-minor-lt :
    (v : String) (major minor patch : ℕ)
    → parse_semver v ≡ some (major, minor, patch)
    → minor < u32_limit
unfolding parse_semver
parse_semver-minor-lt v = parse_parts-minor-lt (split b'.' v)

-- Two 0.x versions negotiate to a text that reads as 0.m.0, with the lower of the two minors.
negotiate_version-minor :
    (client bridge : String) (cm cp bm bp : ℕ)
    → parse_semver client ≡ some (0, cm, cp)
    → parse_semver bridge ≡ some (0, bm, bp)
    → parse_semver (negotiate_version client bridge) ≡ some (0, min cm bm, 0)
unfolding negotiate_version
negotiate_version-minor client bridge cm cp bm bp c b =
    rw (c, b)
      (parse_semver-minor (min cm bm) (omega (arith, parse_semver-minor-lt client 0 cm cp c)))

choose_range :
    (o : Option SemVer)
    → let v = choose_version o (some (0, 1, 0)) "0.1.0" in
      ((p : ℕ) × (o ≡ some (0, 0, p)) × (v ≡ "0.0.0"))
      ⊎ (((p : ℕ) → o ≢ some (0, 0, p)) × (v ≡ "0.1.0"))
unfolding choose_version show
choose_range none = inr ((λ p. λ e. cc), refl)
choose_range (some (zero, zero, p)) = inl (p, refl, refl)
choose_range (some (zero, suc m, p)) =
    let e : min (suc m) 1 ≡ 1 = omega arith in
    inr ((λ q. λ h. ground arith), ap (λ n. "0." <> show n <> ".0") e)
choose_range (some (suc k, m, p)) = inr ((λ q. λ h. ground arith), ground arith)

-- Whatever text the client sends, parseable or not, the bridge answers "0.0.0" to a 0.0.p client
-- and "0.1.0" to every other.
negotiate_version-total :
    (client : String)
    → let v = negotiate_version client bridge_protocol_version in
      ((p : ℕ) × (parse_semver client ≡ some (0, 0, p)) × (v ≡ "0.0.0"))
      ⊎ (((p : ℕ) → parse_semver client ≢ some (0, 0, p)) × (v ≡ "0.1.0"))
unfolding negotiate_version parse_semver split parse_u32
negotiate_version-total client = choose_range (parse_semver client)
