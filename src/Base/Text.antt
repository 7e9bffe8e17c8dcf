-- ===== src/Base/Text.antt =====
-- `str` as the standard library treats it: suffixes, `split` at a character, concatenation.
use Prim.Native.Nat.{ℕ, zero, suc}
use Prim.Native.Char.{Char, code}
use Prim.Native.String.{String}
use mathlib.Core.Path.{◌≡◌, refl, ap}
use mathlib.Core.Bool.{Bool, true, false, ◌&&◌, ◌||◌}
use mathlib.Core.Logic.{inl, inr}
use text.Mathlib.TextEquality.{eq_iff, Char-path}
use mathlib.Core.List.{List, [], ◌∷◌}
use native.Mathlib.Omega.{arith}
use brp_spec.Base.Tests.{◌==◌, string_eq, ==_refl, nat_beq, if◌then◌else◌, Bool-cases}

-- Concatenation, as `format!` makes it.
infixr 65 ◌<>◌
abbrev pub ◌<>◌ : String → String → String
String.[] <> t = t
String.◌∷◌ c s <> t = String.◌∷◌ c (s <> t)

pub <>-nil : (s : String) → (s <> "") ≡ s
<>-nil String.[] = refl
<>-nil (String.◌∷◌ c s) = ap (String.◌∷◌ c) (<>-nil s)

pub <>_assoc : (s t u : String) → ((s <> t) <> u) ≡ s <> (t <> u)
<>_assoc String.[] t u = refl
<>_assoc (String.◌∷◌ c s) t u = ap (String.◌∷◌ c) (<>_assoc s t u)

-- `s.ends_with(t)`
unfoldable pub ends_with : String → String → Bool
ends_with String.[] t = "" == t
ends_with (String.◌∷◌ c s) t =
    let rest = ends_with s t in if String.◌∷◌ c s == t then true else rest

-- `&s[..s.len() - 1]` for a text that ends in an ASCII character.
unfoldable pub drop_last : String → String
drop_last String.[] = ""
drop_last (String.◌∷◌ c String.[]) = ""
drop_last (String.◌∷◌ c (String.◌∷◌ d s)) = String.◌∷◌ c (drop_last (String.◌∷◌ d s))

-- A character in front of the first part.
abbrev pub push_head : Char → List String → List String
push_head c [] = String.◌∷◌ c "" ∷ []
push_head c (p ∷ ps) = String.◌∷◌ c p ∷ ps

-- `s.split(sep).collect()`
unfoldable pub split : ℕ → String → List String
split sep String.[] = "" ∷ []
split sep (String.◌∷◌ c s) =
    let parts = split sep s in if nat_beq (code c) sep then "" ∷ parts else push_head c parts

ends_with_self : (t : String) → ends_with t t ≡ true
unfolding ends_with
ends_with_self String.[] = refl
ends_with_self (String.◌∷◌ c t) = rw (==_refl (String.◌∷◌ c t))

pub ends_with-append : (s t : String) → ends_with (s <> t) t ≡ true
unfolding ends_with
ends_with-append String.[] t = ends_with_self t
ends_with-append (String.◌∷◌ c s) t = ground (arith, ends_with-append s t)

pub drop_last-append : (s : String) (c : Char) → drop_last (s <> String.◌∷◌ c "") ≡ s
unfolding drop_last
drop_last-append String.[] c = refl
drop_last-append (String.◌∷◌ d String.[]) c = refl
drop_last-append (String.◌∷◌ d (String.◌∷◌ e s)) c =
    ap (String.◌∷◌ d) (drop_last-append (String.◌∷◌ e s) c)

-- `s.starts_with(t)`; equal scalar values are equal bytes.
unfoldable pub starts_with : String → String → Bool
starts_with s String.[] = true
starts_with String.[] (String.◌∷◌ d t) = false
starts_with (String.◌∷◌ c s) (String.◌∷◌ d t) = nat_beq (code c) (code d) && starts_with s t

-- The first `n` characters.
unfoldable pub take_str : ℕ → String → String
take_str zero s = ""
take_str (suc n) String.[] = ""
take_str (suc n) (String.◌∷◌ c s) = String.◌∷◌ c (take_str n s)

-- `s.contains(t)` for a text `t`
unfoldable pub contains_text : String → String → Bool
unfolding starts_with
contains_text String.[] t = "" == t
contains_text (String.◌∷◌ c s) t = starts_with (String.◌∷◌ c s) t || contains_text s t

pub starts_with_sound : (s t : String) → starts_with s t ≡ true → (u : String) × (s ≡ t <> u)
unfolding starts_with
starts_with_sound s String.[] h = (s, refl)
starts_with_sound String.[] (String.◌∷◌ d t) h = cc
starts_with_sound (String.◌∷◌ c s) (String.◌∷◌ d t) h =
    let (u, e) = starts_with_sound s t (ground arith) in (u, cc (e, Char-path c d (ground arith)))

pub starts_with-append : (t u : String) → starts_with (t <> u) t ≡ true
unfolding starts_with
starts_with-append String.[] u = refl
starts_with-append (String.◌∷◌ c t) u = ground (arith, starts_with-append t u)

pub ends_with_sound : (s t : String) → ends_with s t ≡ true → (u : String) × (s ≡ u <> t)
unfolding ends_with
ends_with_sound String.[] t h = ("", (eq_iff "" t).0 h)
ends_with_sound (String.◌∷◌ c s) t h = elim (Bool-cases (String.◌∷◌ c s == t)) [
  | inl e ↦ ("", (eq_iff (String.◌∷◌ c s) t).0 e)
  | inr ne ↦
      let (u, e) = ends_with_sound s t (ground arith) in (String.◌∷◌ c u, ap (String.◌∷◌ c) e)
]

pub drop_last-append_cons :
    (s : String) (c : Char) (t : String)
    → drop_last (s <> String.◌∷◌ c t) ≡ s <> drop_last (String.◌∷◌ c t)
unfolding drop_last
drop_last-append_cons String.[] c t = refl
drop_last-append_cons (String.◌∷◌ d String.[]) c t = refl
drop_last-append_cons (String.◌∷◌ d (String.◌∷◌ e s)) c t =
    ap (String.◌∷◌ d) (drop_last-append_cons (String.◌∷◌ e s) c t)
