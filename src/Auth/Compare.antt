-- ===== src/Auth/Compare.antt =====
-- bridge/src/auth.rs: `secure_compare` and `is_valid_origin` against what they promise.
use Prim.Native.String.{len}
use brp_spec.Base.{
  String, ◌≡◌, ◌↔◌, inl, inr, ap, Option, none, some, true, arith, nat_beq_iff, Bool-cases, ◌<>◌,
  string_eq, nat_beq,
}
use brp_spec.Auth.{ConstantTimeEq, secure_compare}

-- The comparison with its early return on the length is equality of texts.
pub secure_compare_iff :
    (c : ConstantTimeEq) (a b : String) → (secure_compare c a b ≡ true) ↔ (a ≡ b)
unfolding secure_compare
secure_compare_iff c a b = elim (Bool-cases (nat_beq (len a) (len b))) [
  | inl same ↦ rw same (c.ct_eq_iff a b ((nat_beq_iff (len a) (len b)).0 same))
  | inr differ ↦ rw differ (ground (arith, ap len, nat_beq_iff (len a) (len b)))
]

-- The connections that may open: no Origin, `null`, or an extension's.
pub data IsExtensionOrigin : Option String → Type 0 where
  raw_client : IsExtensionOrigin none
  native_messaging : IsExtensionOrigin (some "null")
  firefox : (id : String) → IsExtensionOrigin (some ("moz-extension://" <> id))
  chrome : (id : String) → IsExtensionOrigin (some ("chrome-extension://" <> id))
