-- ===== src/Router/Coverage.antt =====
-- bridge/src/router.rs against bridge/src/auth.rs and bridge/src/protocol/session.rs: methods that
-- the whitelist names and that no negotiation can reach.
use brp_spec.Base.{
  String, ◌≡◌, refl, Bool, true, false, not, ◌&&◌, some, List, [], ◌∷◌, arith, In, all, all_sound,
  contains, string_eq, ◌<>◌,
}
use brp_spec.Base.Int.{neg}
use brp_spec.Json.{SerdeJson}
use brp_spec.Auth.{allowed_methods}
use brp_spec.Message.{Request, json_error}
use brp_spec.Session.{Session, new, is_ready}
use brp_spec.Session.Negotiation.{bridge_default, covers}
use brp_spec.Session.Grants.{grants}
use brp_spec.Session.Lifecycle.{SessionCall, run, run-new-IsConsistent}
use brp_spec.Router.Gate.{method_allowed, refusal}
use brp_spec.Router.Admission.{method_allowed-eq-grants}
use brp_spec.Base.{starts_with, ends_with, drop_last}

-- Whitelisted methods outside the bridge's default list of actions.
abbrev pub out_of_reach : List String
out_of_reach =
    "element.scroll" ∷ "element.hover" ∷ "element.select" ∷ "element.getAttribute"
    ∷ "keyboard.press" ∷ []

listed :
    all (λ m. contains allowed_methods m && not (grants bridge_default.actions m)) out_of_reach
    ≡ true
unfolding allowed_methods grants bridge_default covers ends_with starts_with drop_last
listed = refl

ungranted :
    (seed : String) (calls : List SessionCall) (m : String)
    → In m out_of_reach
    → is_ready (run (new seed) calls) ≡ true
    → method_allowed (run (new seed) calls) m ≡ false
ungranted seed calls m h r =
    let v = run-new-IsConsistent seed calls in
    ground (
      arith,
      method_allowed-eq-grants (run (new seed) calls) m v r,
      v.within m,
      all_sound (λ x. contains allowed_methods x && not (grants bridge_default.actions x)) m
          out_of_reach listed h,
    )

-- Scrolling, hovering, selecting, reading an attribute and pressing a key are whitelisted, yet in
-- every ready session of every history such a request is refused with the capability error -32005,
-- whatever the client offered in its handshakes.
pub out_of_reach-refused :
    (J : SerdeJson) (allow : Bool) (second : Session) (req : Request J.Value) (seed : String)
    (calls : List SessionCall)
    → In req.method out_of_reach
    → is_ready (run (new seed) calls) ≡ true
    → refusal J allow (run (new seed) calls) second req
      ≡ some (record {
        code = neg 32005;
        message = "Method not supported by negotiated capabilities: " <> req.method;
        error_data = some (
            json_error J "BRP_CAPABILITY_NOT_SUPPORTED" "CAPABILITY" false
              (("recoveryHint", J.text "Check initialize response for supported actions") ∷ []));
      })
unfolding refusal
out_of_reach-refused J allow second req seed calls h r =
    let u = ungranted seed calls req.method h r in
    let w =
      all_sound (λ x. contains allowed_methods x && not (grants bridge_default.actions x))
        req.method out_of_reach listed h in
    let k : contains allowed_methods req.method ≡ true = ground arith in rw (k, r, u)
