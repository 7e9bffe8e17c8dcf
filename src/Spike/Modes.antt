-- ===== src/Spike/Modes.antt =====
-- spikes/b1-ipc-spike/src/main.rs: the mode on the command line.
use brp_spec.Base.{
  ℕ, zero, suc, ◌≤◌, String, ◌<>◌, ◌≡◌, refl, ap, inl, inr, true, false, not, some, List, [], ◌∷◌,
  ◌++◌, all, starts_with, Bool-cases, arith,
}
use brp_spec.Base.Text.{starts_with_sound, starts_with-append}
use brp_spec.Spike.{char_count, trim_rounds, parse_mode_arg}

abbrev prefix : String
prefix = "--mode="

-- With fuel for the length, no prefix is left.
trim_rounds-trimmed :
    (fuel : ℕ) (s : String)
    → char_count s ≤ fuel
    → starts_with (trim_rounds fuel s prefix) prefix ≡ false
unfolding trim_rounds starts_with
trim_rounds-trimmed zero String.[] h = refl
trim_rounds-trimmed zero (String.◌∷◌ c s) h = absurd (omega (arith, h))
trim_rounds-trimmed (suc fuel) s h = elim (Bool-cases (starts_with s prefix)) [
  | inl t ↦
      let (u, e) = starts_with_sound s prefix t in
      let shorter : char_count u ≤ fuel = omega (arith, h, ap char_count e) in
      rw (t, trim_rounds, e) (trim_rounds-trimmed fuel u shorter)
  | inr f ↦ rw (f, trim_rounds) f
]

-- The mode that is read has no prefix left, however often it was repeated.
parse_mode_arg-trimmed :
    (args : List String) (mode : String)
    → parse_mode_arg args ≡ some mode
    → starts_with mode prefix ≡ false
unfolding parse_mode_arg
parse_mode_arg-trimmed [] mode h = cc
parse_mode_arg-trimmed (a ∷ args) mode h = elim (Bool-cases (starts_with a prefix)) [
  | inl t ↦ ground (arith, t, h, trim_rounds-trimmed (char_count a) a (omega arith))
  | inr f ↦ ground (arith, f, parse_mode_arg-trimmed args mode)
]

-- The first argument with the prefix counts: what stands before it and after it does not matter.
parse_mode_arg-first :
    (before after : List String) (mode : String)
    → all (λ a. not (starts_with a "--mode=")) before ≡ true
    → starts_with mode "--mode=" ≡ false
    → parse_mode_arg (before ++ ("--mode=" <> mode) ∷ after) ≡ some mode
unfolding parse_mode_arg trim_rounds
parse_mode_arg-first [] after mode h plain =
    rw (starts_with-append prefix mode, plain, parse_mode_arg, trim_rounds) refl
parse_mode_arg-first (a ∷ before) after mode h plain =
    ground (arith, parse_mode_arg-first before after mode)
