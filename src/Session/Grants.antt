-- ===== src/Session/Grants.antt =====
-- bridge/src/protocol/session.rs: what a negotiated list of actions grants.
use Prim.Native.Char.{Char, char, code}
use brp_spec.Base.{
  ℕ, String, ◌≡◌, refl, sym, ap, ◌∙◌, Bool, true, false, inl, inr, List, [], ◌∷◌, arith, eq_iff,
  Bool-cases, In-keep_if, any, any_sound, any_complete, keep_if, is_empty, if◌then◌else◌, ◌==◌,
  string_eq, ◌<>◌, starts_with, ends_with, drop_last,
}
use brp_spec.Base.Text.{
  starts_with_sound, starts_with-append, ends_with_sound, drop_last-append, drop_last-append_cons,
  <>_assoc, <>-nil,
}
use brp_spec.Session.Negotiation.{Capabilities, covers, negotiate}

-- The code of the last character.
last_code : ℕ → String → ℕ
last_code n String.[] = n
last_code n (String.◌∷◌ c s) = last_code (code c) s

last_code-append : (n : ℕ) (s : String) (c : Char) → last_code n (s <> String.◌∷◌ c "") ≡ code c
unfolding last_code
last_code-append n String.[] c = refl
last_code-append n (String.◌∷◌ d s) c = last_code-append (code d) s c

abbrev star : Char
star = char b'*' tt

abbrev dot : Char
dot = char b'.' tt

dot_not_star : (u w : String) → (u <> ".") ≡ (w <> ".*") → ⊥
dot_not_star u w e = omega (
  arith,
  sym (last_code-append 0 u dot)
      ∙ ap (last_code 0) (e ∙ sym (<>_assoc w "." "*"))
      ∙ last_code-append 0 (w <> ".") star,
)

-- A wildcard `w.*` drops to `w.`.
drop_star : (a w : String) → a ≡ w <> ".*" → drop_last a ≡ w <> "."
drop_star a w e = ap drop_last (e ∙ sym (<>_assoc w "." "*")) ∙ drop_last-append (w <> ".") star

-- Dropping the last character of a wildcard below `p` stays below `p`.
drop_below :
    (a v w u : String)
    → a ≡ (v <> ".") <> u
    → a ≡ w <> ".*"
    → (r : String) × (drop_last a ≡ (v <> ".") <> r)
drop_below a v w String.[] e h = absurd (dot_not_star v w (sym (<>-nil (v <> ".")) ∙ sym e ∙ h))
drop_below a v w (String.◌∷◌ c u) e h =
    (drop_last (String.◌∷◌ c u), ap drop_last e ∙ drop_last-append_cons (v <> ".") c u)

starts_with_of : (m p u : String) → m ≡ p <> u → starts_with m p ≡ true
starts_with_of m p u e = rw e (starts_with-append p u)

covers_wildcard :
    (a m : String) → ends_with a ".*" ≡ true → covers a m ≡ starts_with m (drop_last a)
unfolding covers
covers_wildcard a m h = rw h

covers_concrete : (a m : String) → ends_with a ".*" ≡ false → covers a m ≡ (a == m)
unfolding covers
covers_concrete a m h = rw h

-- What a wildcard lets through grants only what the wildcard grants.
covers_below :
    (ba a m : String)
    → ends_with ba ".*" ≡ true
    → starts_with a (drop_last ba) ≡ true
    → covers a m ≡ true
    → starts_with m (drop_last ba) ≡ true
covers_below ba a m wild below h =
    let (v, e) = ends_with_sound ba ".*" wild in
    let p : drop_last ba ≡ v <> "." = drop_star ba v e in
    let (u, s) = starts_with_sound a (drop_last ba) below in
    elim (Bool-cases (ends_with a ".*")) [
      | inr conc ↦ rw (← ((eq_iff a m).0 (sym (covers_concrete a m conc) ∙ h))) below
      | inl wild' ↦
          let (w, f) = ends_with_sound a ".*" wild' in
          let (r, g) = drop_below a v w u (s ∙ ap (λ q. q <> u) p) f in
          let (t, k) = starts_with_sound m (drop_last a) (sym (covers_wildcard a m wild') ∙ h) in
          starts_with_of m (drop_last ba) (r <> t)
            (k ∙ ap (λ q. q <> t) (g ∙ ap (λ q. q <> r) (sym p)) ∙ <>_assoc (drop_last ba) r t)
    ]

-- Granting is transitive: an action that an entry lets through grants nothing beyond the entry.
covers_trans : (ba a m : String) → covers ba a ≡ true → covers a m ≡ true → covers ba m ≡ true
covers_trans ba a m h k = elim (Bool-cases (ends_with ba ".*")) [
  | inl wild ↦
      covers_wildcard ba m wild ∙ covers_below ba a m wild (sym (covers_wildcard ba a wild) ∙ h) k
  | inr conc ↦ rw ((eq_iff ba a).0 (sym (covers_concrete ba a conc) ∙ h)) k
]

-- The methods that a list of actions grants.
unfoldable pub grants : List String → String → Bool
grants actions m = any (λ a. covers a m) actions

grants-keep_if :
    (own client : List String) (m : String)
    → grants (keep_if (λ a. grants own a) client) m ≡ true
    → grants own m ≡ true
unfolding grants
grants-keep_if own client m h =
    let (a, here, ca) = any_sound (λ x. covers x m) (keep_if (λ x. grants own x) client) h in
    let kept = (In-keep_if (λ x. grants own x) a client).0 here in
    let (ba, there, cb) = any_sound (λ x. covers x a) own kept.1 in
    any_complete (λ x. covers x m) ba own there (covers_trans ba a m cb ca)

-- An empty intersection falls back to the list before.
grants_fallback :
    (own left : List String) (m : String)
    → (grants left m ≡ true → grants own m ≡ true)
    → grants (if is_empty left then own else left) m ≡ true
    → grants own m ≡ true
grants_fallback own [] m f h = h
grants_fallback own (a ∷ left) m f h = f h

-- Negotiation never widens: a method granted afterwards was granted before, whatever the client
-- asks for, wildcards of its own included.
pub grants-negotiate :
    (own client : Capabilities) (m : String)
    → grants (negotiate own client).actions m ≡ true
    → grants own.actions m ≡ true
unfolding negotiate grants
grants-negotiate own client m h =
    grants_fallback own.actions (keep_if (λ a. grants own.actions a) client.actions) m
      (grants-keep_if own.actions client.actions m) h
