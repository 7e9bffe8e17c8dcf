-- ===== src/Base/TextOrder.antt =====
-- The order of `str`, and that it orders decimal texts of one length by their numbers.
use Prim.Native.Nat.{ℕ, zero, suc, ◌/◌, ◌%◌, ◌^◌, ◌≤◌, ◌<◌}
use Prim.Native.Char.{code}
use Prim.Native.String.{String}
use mathlib.Core.Path.{◌≡◌, refl, ◌∙◌}
use mathlib.Core.Bool.{Bool, true, false}
use native.Mathlib.Omega.{arith}
use text.Mathlib.TextEquality.{Char-path}
use brp_spec.Base.Tests.{ltb, leb, nat_beq, if◌then◌else◌}
use brp_spec.Base.Text.{◌<>◌}
use brp_spec.Base.U32.{show, to_digits, digit_char, to_digits-append}

-- Whether `s <= t`. Code points are compared as the bytes of UTF-8 are.
unfoldable pub text_leb : String → String → Bool
text_leb String.[] t = true
text_leb (String.◌∷◌ c s) String.[] = false
text_leb (String.◌∷◌ c s) (String.◌∷◌ d t) =
    let rest = text_leb s t in if nat_beq (code c) (code d) then rest else ltb (code c) (code d)

pub text_leb_refl : (s : String) → text_leb s s ≡ true
unfolding text_leb
text_leb_refl String.[] = refl
text_leb_refl (String.◌∷◌ c s) = ground (arith, text_leb_refl s)

pub text_leb_total : (s t : String) → text_leb s t ≡ false → text_leb t s ≡ true
unfolding text_leb
text_leb_total String.[] t h = cc
text_leb_total (String.◌∷◌ c s) String.[] h = refl
text_leb_total (String.◌∷◌ c s) (String.◌∷◌ d t) h = ground (arith, text_leb_total s t)

pub text_leb_trans :
    (s t u : String) → text_leb s t ≡ true → text_leb t u ≡ true → text_leb s u ≡ true
unfolding text_leb
text_leb_trans String.[] t u h k = refl
text_leb_trans (String.◌∷◌ c s) String.[] u h k = cc
text_leb_trans (String.◌∷◌ c s) (String.◌∷◌ d t) String.[] h k = cc
text_leb_trans (String.◌∷◌ c s) (String.◌∷◌ d t) (String.◌∷◌ e u) h k =
    ground (arith, text_leb_trans s t u)

pub text_leb_antisymm : (s t : String) → text_leb s t ≡ true → text_leb t s ≡ true → s ≡ t
unfolding text_leb
text_leb_antisymm String.[] String.[] h k = refl
text_leb_antisymm String.[] (String.◌∷◌ d t) h k = cc
text_leb_antisymm (String.◌∷◌ c s) String.[] h k = cc
text_leb_antisymm (String.◌∷◌ c s) (String.◌∷◌ d t) h k =
    cc (text_leb_antisymm s t (ground arith) (ground arith), Char-path c d (ground arith))

-- The number has `k` decimal digits.
abbrev HasDigits : ℕ → ℕ → Type 0
HasDigits zero n = ⊥
HasDigits (suc zero) n = n < 10
HasDigits (suc (suc k)) n = (10 ≤ n) × HasDigits (suc k) (n / 10)

-- One more digit in front of texts that follow.
text_leb-digit :
    (a b : ℕ) (u v : String)
    → text_leb (String.◌∷◌ (digit_char a) u) (String.◌∷◌ (digit_char b) v)
      ≡ (if nat_beq (a % 10) (b % 10) then text_leb u v else ltb (a % 10) (b % 10))
unfolding text_leb digit_char
text_leb-digit a b u v = ground arith

text_leb-to_digits :
    (k f g a b : ℕ) (u v : String)
    → a < f
    → b < g
    → HasDigits k a
    → HasDigits k b
    → text_leb (to_digits f a u) (to_digits g b v) ≡ (if nat_beq a b then text_leb u v else ltb a b)
unfolding to_digits
text_leb-to_digits zero f g a b u v af bg ka kb = absurd ka
text_leb-to_digits (suc k) zero g a b u v af bg ka kb = absurd (omega (arith, af))
text_leb-to_digits (suc k) (suc f) zero a b u v af bg ka kb = absurd (omega (arith, bg))
text_leb-to_digits (suc zero) (suc f) (suc g) a b u v af bg ka kb =
    let small : ltb a 10 ≡ true = ground (arith, ka) in
    let small' : ltb b 10 ≡ true = ground (arith, kb) in
    let ea : a % 10 ≡ a = omega (arith, ka) in
    let eb : b % 10 ≡ b = omega (arith, kb) in
    rw (small, small', to_digits, text_leb-digit a b u v, ea, eb) refl
text_leb-to_digits (suc (suc k)) (suc f) (suc g) a b u v af bg (la, ka) (lb, kb) =
    let big : ltb a 10 ≡ false = ground (arith, la) in
    let big' : ltb b 10 ≡ false = ground (arith, lb) in
    let ih =
      text_leb-to_digits (suc k) f g (a / 10) (b / 10) (String.◌∷◌ (digit_char a) u)
        (String.◌∷◌ (digit_char b) v) (omega (arith, af, la)) (omega (arith, bg, lb)) ka kb in
    rw (big, big', to_digits, ih, text_leb-digit a b u v) (ground arith)

-- Two numbers of ten digits, each before the same text.
pub text_leb-show :
    (a b : ℕ) (t : String)
    → 10 ^ 9 ≤ a
    → a < 10 ^ 10
    → 10 ^ 9 ≤ b
    → b < 10 ^ 10
    → text_leb (show a <> t) (show b <> t) ≡ leb a b
unfolding show
text_leb-show a b t la ha lb hb =
    rw (to_digits-append (suc a) a "" t, to_digits-append (suc b) b "" t)
      (text_leb-to_digits 10 (suc a) (suc b) a b t t (omega arith) (omega arith) (omega arith)
          (omega arith)
        ∙ (rw (text_leb_refl t) (ground arith)))
