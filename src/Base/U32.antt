-- ===== src/Base/U32.antt =====
-- Decimal text of an unsigned 32-bit number: `Display` and `u32::from_str`.
use Prim.Native.Nat.{ℕ, zero, suc, ◌+◌, ◌-◌, ◌*◌, ◌/◌, ◌%◌, ◌^◌, ◌<◌}
use Prim.Native.Char.{Char, char, code, IsScalar}
use Prim.Native.String.{String}
use mathlib.Core.Path.{◌≡◌, refl, sym, ap, ◌∙◌}
use mathlib.Core.Logic.{inl, inr}
use mathlib.Core.Bool.{true, false, ◌&&◌}
use mathlib.Core.Option.{Option, none, some}
use mathlib.Core.List.{List, ◌∷◌}
use native.Mathlib.Omega.{arith}
use brp_spec.Base.Tests.{nat_beq, ltb, leb, if◌then◌else◌, Bool-cases}
use brp_spec.Base.Text.{◌<>◌, split}

abbrev pub u32_limit : ℕ
u32_limit = 2 ^ 32

pub small-IsScalar : (n : ℕ) → n < 55296 → IsScalar n
small-IsScalar n h = ground arith

unfoldable pub digit_char : ℕ → Char
digit_char d = char (b'0' + d % 10) (small-IsScalar (b'0' + d % 10) (omega arith))

-- The digits of `n` in front of `out`; fuel above `n` is enough.
unfoldable pub to_digits : ℕ → ℕ → String → String
to_digits zero n out = out
to_digits (suc f) n out = elim (ltb n 10) [
  | true ↦ String.◌∷◌ (digit_char n) out
  | false ↦ to_digits f (n / 10) (String.◌∷◌ (digit_char n) out)
]

-- `n.to_string()`
unfoldable pub show : ℕ → String
unfolding to_digits digit_char
show n = to_digits (suc n) n ""

-- The loop of `from_str`, with its checked multiplication and addition.
parse_digits : ℕ → String → Option ℕ
parse_digits n String.[] = some n
parse_digits n (String.◌∷◌ c s) =
    let m = n * 10 + (code c - b'0') in
    let rest = parse_digits m s in
    if leb b'0' (code c) && leb (code c) b'9' && ltb m u32_limit then rest else none

-- `s.parse::<u32>().ok()`: one optional `+`, then one digit at least.
unfoldable pub parse_u32 : String → Option ℕ
unfolding parse_digits
parse_u32 String.[] = none
parse_u32 (String.◌∷◌ c String.[]) = parse_digits 0 (String.◌∷◌ c "")
parse_u32 (String.◌∷◌ c (String.◌∷◌ d s)) =
    let rest = String.◌∷◌ d s in
    if nat_beq (code c) b'+' then parse_digits 0 rest else parse_digits 0 (String.◌∷◌ c rest)

parse_step :
    (d n : ℕ) (s : String)
    → n * 10 + d % 10 < u32_limit
    → parse_digits n (String.◌∷◌ (digit_char d) s) ≡ parse_digits (n * 10 + d % 10) s
unfolding parse_digits digit_char
parse_step d n s h = let e : (48 + d % 10) - 48 ≡ d % 10 = omega arith in rw e (ground arith)

parse-to_digits :
    (f n : ℕ) (out : String)
    → n < f
    → n < u32_limit
    → parse_digits 0 (to_digits f n out) ≡ parse_digits n out
unfolding to_digits
parse-to_digits zero n out h k = elim h [ ]
parse-to_digits (suc f) n out h k = elim (Bool-cases (ltb n 10)) [
  | inl small ↦
      rw (small, to_digits)
        (let e : 0 * 10 + n % 10 ≡ n = ground arith in
          parse_step n 0 out (omega (arith, e)) ∙ ap (λ m. parse_digits m out) e)
  | inr big ↦
      rw (big, to_digits)
        (parse-to_digits f (n / 10) (String.◌∷◌ (digit_char n) out) (ground arith) (omega arith)
          ∙ parse_step n (n / 10) out (omega arith)
          ∙ ap (λ m. parse_digits m out) (omega arith))
]

-- Printing starts with a digit, so the text is not empty and has no sign.
to_digits-head :
    (f n : ℕ) (out : String)
    → n < f
    → (d : ℕ) × (s : String) × (to_digits f n out ≡ String.◌∷◌ (digit_char d) s)
unfolding to_digits
to_digits-head zero n out h = elim h [ ]
to_digits-head (suc f) n out h = elim (Bool-cases (ltb n 10)) [
  | inl small ↦ (n, out, rw (small, to_digits))
  | inr big ↦
      let (d, s, e) = to_digits-head f (n / 10) (String.◌∷◌ (digit_char n) out) (ground arith) in
      (d, s, rw (big, to_digits) e)
]

pub show-head : (n : ℕ) → (d : ℕ) × (s : String) × (show n ≡ String.◌∷◌ (digit_char d) s)
unfolding show
show-head n = to_digits-head (suc n) n "" (omega arith)

parse-digit :
    (d : ℕ) (s : String)
    → parse_u32 (String.◌∷◌ (digit_char d) s) ≡ parse_digits 0 (String.◌∷◌ (digit_char d) s)
unfolding parse_u32 digit_char
parse-digit d String.[] = refl
parse-digit d (String.◌∷◌ c s) = ground arith

-- A printed number is read back.
pub parse_u32-show : (n : ℕ) → n < u32_limit → parse_u32 (show n) ≡ some n
unfolding show parse_digits
parse_u32-show n h =
    let (d, s, e) = to_digits-head (suc n) n "" (omega arith) in
    rw e (parse-digit d s)
    ∙ sym (ap (parse_digits 0) e)
    ∙ parse-to_digits (suc n) n "" (omega arith) h

pub to_digits-append :
    (f n : ℕ) (out t : String) → (to_digits f n out <> t) ≡ to_digits f n (out <> t)
unfolding to_digits
to_digits-append zero n out t = refl
to_digits-append (suc f) n out t = elim (Bool-cases (ltb n 10)) [
  | inl small ↦ rw (small, to_digits)
  | inr big ↦ rw (big, to_digits) (to_digits-append f (n / 10) (String.◌∷◌ (digit_char n) out) t)
]

split-digit :
    (n : ℕ) (out p : String) (ps : List String)
    → split b'.' out ≡ p ∷ ps
    → split b'.' (String.◌∷◌ (digit_char n) out) ≡ String.◌∷◌ (digit_char n) p ∷ ps
unfolding split digit_char
split-digit n out p ps h = rw h (ground arith)

split-to_digits :
    (f n : ℕ) (out p : String) (ps : List String)
    → split b'.' out ≡ p ∷ ps
    → split b'.' (to_digits f n out) ≡ to_digits f n p ∷ ps
unfolding to_digits
split-to_digits zero n out p ps h = h
split-to_digits (suc f) n out p ps h = elim (Bool-cases (ltb n 10)) [
  | inl small ↦ rw (small, to_digits) (split-digit n out p ps h)
  | inr big ↦ rw (big, to_digits) (split-to_digits f (n / 10) _ _ ps (split-digit n out p ps h))
]

-- A printed number before a dot is the first part.
pub split-show :
    (n : ℕ) (t : String) (ps : List String)
    → split b'.' t ≡ "" ∷ ps
    → split b'.' (show n <> t) ≡ show n ∷ ps
unfolding show
split-show n t ps h = rw (to_digits-append (suc n) n "" t) (split-to_digits (suc n) n t "" ps h)

parse_digits-lt : (s : String) (n m : ℕ) → n < u32_limit → parse_digits n s ≡ some m → m < u32_limit
unfolding parse_digits
parse_digits-lt String.[] n m h e = ground arith
parse_digits-lt (String.◌∷◌ c s) n m h e =
    ground (arith, parse_digits-lt s (n * 10 + (code c - b'0')) m)

-- What is read fits 32 bits.
pub parse_u32-lt : (s : String) (n : ℕ) → parse_u32 s ≡ some n → n < u32_limit
unfolding parse_u32
parse_u32-lt String.[] n h = cc
parse_u32-lt (String.◌∷◌ c String.[]) n h = parse_digits-lt (String.◌∷◌ c "") 0 n (omega arith) h
parse_u32-lt (String.◌∷◌ c (String.◌∷◌ d s)) n h = ground (
  arith,
  parse_digits-lt (String.◌∷◌ d s) 0 n,
  parse_digits-lt (String.◌∷◌ c (String.◌∷◌ d s)) 0 n,
)
