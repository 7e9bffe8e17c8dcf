-- ===== src/Auth.antt =====
-- bridge/src/auth.rs: limits, the method whitelist, the Origin test, JSON limits and the
-- comparison of tokens.
pub mod Depth
pub mod Compare
use Prim.Native.Char.{code}
use Prim.Native.String
use Prim.Native.String.{len}
use brp_spec.Base.{
  ℕ, ◌≡◌, ◌↔◌, zero, suc, ◌*◌, String, Bool, true, false, not, ◌&&◌, Option, none, some, List, [],
  ◌∷◌, ◌==◌, string_eq, nat_eq, nat_beq, ltb, if◌then◌else◌, length, all, contains, starts_with,
  Result, ok, err, map,
}
use brp_spec.Json.{SerdeJson, Shape}

abbrev pub max_message_size : ℕ
max_message_size = 4 * 1024 * 1024

abbrev pub max_json_depth : ℕ
max_json_depth = 32

abbrev pub max_array_length : ℕ
max_array_length = 1024

abbrev pub max_object_keys : ℕ
max_object_keys = 256

unfoldable pub allowed_methods : List String
allowed_methods =
    "tab.list" ∷ "tab.open" ∷ "tab.close" ∷ "tab.select" ∷ "page.navigate"
    ∷ "page.getInteractionTree" ∷ "page.screenshot" ∷ "page.goBack" ∷ "page.goForward"
    ∷ "page.reload" ∷ "page.waitForSelector" ∷ "element.click" ∷ "element.type" ∷ "element.fill"
    ∷ "element.scroll" ∷ "element.hover" ∷ "element.select" ∷ "element.getAttribute"
    ∷ "keyboard.press" ∷ "script.execute" ∷ "token.issue" ∷ "token.revoke" ∷ "token.list" ∷ []

-- The arms of the match, in order.
unfoldable pub is_valid_origin : Option String → Bool
is_valid_origin none = true
is_valid_origin (some o) =
    if o == "null"
    then true
    else if starts_with o "moz-extension://"
    then true
    else starts_with o "chrome-extension://"

module _ (J : SerdeJson) where
  open J use {Value, shape}

  -- The recursion is on the depth that is left.
  unfoldable pub validate_json_depth : Value → ℕ → Bool
  validate_json_depth value zero = false
  validate_json_depth value (suc depth) = elim (shape value) [
    | Shape.array arr ↦
        if ltb max_array_length (length arr)
        then false
        else all (λ v. validate_json_depth v depth) arr
    | Shape.object obj ↦
        if ltb max_object_keys (length obj)
        then false
        else all (λ v. validate_json_depth v depth) (map (λ e. e.1) obj)
    | Shape.scalar ↦ true
  ]

-- The crate `subtle`: `ct_eq` on the bytes of two texts, which answers 1 exactly for equal slices.
pub record ConstantTimeEq : Type 0 where
  pub ct_eq : String → String → Bool
  pub ct_eq_iff : (a b : String) → len a ≡ len b → (ct_eq a b ≡ true) ↔ (a ≡ b)

unfoldable pub secure_compare : ConstantTimeEq → String → String → Bool
secure_compare c a b = if not (nat_beq (len a) (len b)) then false else c.ct_eq a b

-- The callback of the WebSocket handshake: the Origin header decides.
unfoldable pub on_request : {R : Type 0} → Option String → R → Result R String
on_request origin response =
    if not (is_valid_origin origin) then err "Invalid Origin" else ok response
