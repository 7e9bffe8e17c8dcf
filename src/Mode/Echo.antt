-- ===== src/Mode/Echo.antt =====
-- bridge/src/mode.rs: `--echo` overrides every other argument.
use brp_spec.Base.{
  String, ◌≡◌, ◌↔◌, ◌⊎◌, inl, inr, refl, List, [], ◌∷◌, string_eq, eq_iff, In, arith, Result, ok,
  err,
}
use brp_spec.Mode.{
  BridgeMode, bridge, bootstrap, echo, unless_echo, apply_arg, parse_args, parse_mode,
}

Result-cases : {A E : Type 0} (r : Result A E) → ((a : A) × (r ≡ ok a)) ⊎ ((e : E) × (r ≡ err e))
Result-cases (ok a) = inl (a, refl)
Result-cases (err e) = inr (e, refl)

-- What one argument does to the mode.
apply_arg-echo :
    (mode mode' : BridgeMode) (arg : String)
    → apply_arg mode arg ≡ ok mode'
    → (mode' ≡ echo) ↔ ((mode ≡ echo) ⊎ (arg ≡ "--echo"))
unfolding apply_arg unless_echo
apply_arg-echo bridge mode' arg h =
    ground
      (arith, h, eq_iff arg "--echo", eq_iff arg "--mode=bridge", eq_iff arg "--mode=bootstrap")
apply_arg-echo bootstrap mode' arg h = ground (arith, h, eq_iff arg "--echo")
apply_arg-echo echo mode' arg h = ground (arith, h, eq_iff arg "--echo")

parse_args-echo :
    (mode mode' : BridgeMode) (args : List String)
    → parse_args mode args ≡ ok mode'
    → (mode' ≡ echo) ↔ ((mode ≡ echo) ⊎ In "--echo" args)
unfolding parse_args
parse_args-echo mode mode' [] h = ground arith
parse_args-echo mode mode' (arg ∷ args) h = elim (Result-cases (apply_arg mode arg)) [
  | inl (next, e) ↦
      ground (arith, h, e, apply_arg-echo mode next arg e, parse_args-echo next mode' args)
  | inr (exit, e) ↦ ground (arith, h, e)
]

-- A command line that is not refused selects the echo mode exactly if `--echo` stands somewhere
-- among its arguments, before or after whatever other modes it names.
parse_mode-echo :
    (program : String) (args : List String) (mode : BridgeMode)
    → parse_mode (program ∷ args) ≡ ok mode
    → (mode ≡ echo) ↔ In "--echo" args
unfolding parse_mode
parse_mode-echo program args mode h = ground (arith, parse_args-echo bridge mode args h)
