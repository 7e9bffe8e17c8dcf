-- ===== src/LogSanitizer.antt =====
-- bridge/src/log_sanitizer.rs: the redaction of log messages. The crate regex is an interface.
use brp_spec.Base.{String, Bool, false, List, [], ◌∷◌, ◌≡◌, refl, All}

-- `Regex::new(pattern).unwrap()` of the crate, as the pattern's text: whether it matches, and
-- `replace_all`. Documented: where the pattern matches nowhere, the text is returned as it is.
pub record Regex : Type 0 where
  pub is_match : String → String → Bool
  pub replace_all : String → String → String → String
  pub replace_all-unmatched :
      (pattern text replacement : String)
      → is_match pattern text ≡ false
      → replace_all pattern text replacement ≡ text

-- Each pattern with its replacement, in order.
unfoldable pub sensitive_patterns : List (String × String)
sensitive_patterns =
    ("(?i)(token\\s*[=:]\\s*)[^\\s&\"',}]+", "${1}***")
    ∷ ("(?i)(password\\s*[=:]\\s*)[^\\s&\"',}]+", "${1}***")
    ∷ ("(?i)(authorization\\s*:\\s*bearer\\s+)[^\\s\"',}]+", "${1}***")
    ∷ ("(?i)\"((?:auth_?token|secret|api_?key))\"\\s*:\\s*\"[^\"]*\"", "\"$1\": \"***\"")
    ∷ []

module _ (regex : Regex) where
  -- The loop: each replacement is made in the result of those before it.
  unfoldable pub redact : List (String × String) → String → String
  redact [] result = result
  redact ((pattern, replacement) ∷ patterns) result =
      redact patterns (regex.replace_all pattern result replacement)

  unfoldable pub sanitize : String → String
  unfolding redact sensitive_patterns
  sanitize input = redact sensitive_patterns input

  redact-unmatched :
      (patterns : List (String × String)) (input : String)
      → All (λ p. regex.is_match p.0 input ≡ false) patterns
      → redact patterns input ≡ input
  unfolding redact
  redact-unmatched [] input h = refl
  redact-unmatched ((pattern, replacement) ∷ patterns) input (h, hs) =
      rw (regex.replace_all-unmatched pattern input replacement h)
        (redact-unmatched patterns input hs)

  -- A message that no pattern matches is logged as it is.
  sanitize-unmatched :
      (input : String)
      → All (λ p. regex.is_match p.0 input ≡ false) sensitive_patterns
      → sanitize input ≡ input
  unfolding sanitize
  sanitize-unmatched input h = redact-unmatched sensitive_patterns input h
