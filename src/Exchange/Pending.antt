-- ===== src/Exchange/Pending.antt =====
-- bridge/src/router.rs: the pending map, entry by entry, and what a disconnect does to it.
use mathlib.Core.Path.{fun_ext}
use native.Mathlib.Omega.{arith}
use brp_spec.Base.{
  ℕ, Bool, false, not, ◌&&◌, none, some, Bool-cases, List, [], ◌∷◌, ◌++◌, map, nat_eq, ◌==◌,
  string_eq, if◌then◌else◌, ◌≡◌, inl, inr, refl, ◌∙◌, any, keep_if, nat_beq_iff, ==_refl,
}
use brp_spec.Base.Dict
use brp_spec.Base.Dict.{Dict}
use brp_spec.Json.{SerdeJson}
use brp_spec.Message.{Response, Codec}
use brp_spec.WsServer.Extension.{disconnect_error}
use brp_spec.WsServer.Numbers.{get-keep_if}
use brp_spec.Exchange.{Call, Book, cut_off, Exchange, replies}

-- One entry for a key.
abbrev pub HasDistinctKeys : Dict ℕ Call → Type 0
HasDistinctKeys [] = Unit
HasDistinctKeys ((n, call) ∷ m) = (Dict.get n m ≡ none) × HasDistinctKeys m

pub keep_if-HasDistinctKeys :
    (p : ℕ × Call → Bool) (m : Dict ℕ Call) → HasDistinctKeys m → HasDistinctKeys (keep_if p m)
keep_if-HasDistinctKeys p [] h = tt
keep_if-HasDistinctKeys p ((n, call) ∷ m) (fresh, rest) =
    let ih = keep_if-HasDistinctKeys p m rest in
    elim (Bool-cases (p (n, call))) [ inl t ↦ rw t (get-keep_if p n m fresh, ih) | inr f ↦ rw f ih ]

pub remove-HasDistinctKeys :
    (k : ℕ) (m : Dict ℕ Call) → HasDistinctKeys m → HasDistinctKeys (Dict.remove k m)
unfolding Dict.remove
remove-HasDistinctKeys k [] h = tt
remove-HasDistinctKeys k ((n, call) ∷ m) (fresh, rest) =
    let ih = remove-HasDistinctKeys k m rest in
    elim (Bool-cases (n == k)) [
      | inl t ↦ rw t ih
      | inr f ↦ rw f (Dict.get-remove k n m ∙ ground (arith, fresh), ih)
    ]

pub insert-HasDistinctKeys :
    (k : ℕ) (call : Call) (m : Dict ℕ Call)
    → HasDistinctKeys m
    → HasDistinctKeys (Dict.insert k call m)
unfolding Dict.insert
insert-HasDistinctKeys k call m h =
    (Dict.get-remove k k m ∙ (rw (==_refl k) refl), remove-HasDistinctKeys k m h)

-- Whether an entry under `j` passes the test.
abbrev pub hits : (ℕ × Call → Bool) → ℕ → ℕ × Call → Bool
hits p j e = e.0 == j && p e

hits_absent :
    (p : ℕ × Call → Bool) (j : ℕ) (m : Dict ℕ Call) → Dict.get j m ≡ none → any (hits p j) m ≡ false
unfolding Dict.get
hits_absent p j [] h = refl
hits_absent p j ((n, call) ∷ m) h = ground (arith, h, hits_absent p j m)

pub get-keep_if-not :
    (p : ℕ × Call → Bool) (j : ℕ) (m : Dict ℕ Call)
    → HasDistinctKeys m
    → Dict.get j (keep_if (λ e. not (p e)) m) ≡ (if any (hits p j) m then none else Dict.get j m)
unfolding Dict.get
get-keep_if-not p j [] h = refl
get-keep_if-not p j ((n, call) ∷ m) (fresh, rest) =
    let ih = get-keep_if-not p j m rest in
    elim (Bool-cases (p (n, call))) [
      | inr f ↦ rw f (ground (arith, ih, hits_absent p j m, nat_beq_iff n j, fresh))
      | inl t ↦ rw t (
          ground (arith, ih, get-keep_if (λ (e : ℕ × Call). not (p e)) j m, nat_beq_iff n j, fresh))
    ]

module _ (J : SerdeJson) (codec : Codec J) where
  open J use {Value}

  -- What a disconnect delivers, with the entry that each response answers.
  abbrev pub cut_log : List (ℕ × Call) → List (ℕ × Call × Response Value)
  cut_log [] = []
  cut_log ((n, call) ∷ m) = (n, call, disconnect_error J call.0) ∷ cut_log m

  -- Answering, one after the other, the entries of `m` that pass the test.
  pub cut_all :
      (p : ℕ × Call → Bool) (m : Dict ℕ Call) (opened : List (ℕ × Call))
      (log : List (ℕ × Call × Response Value)) (before book : Book)
      → Exchange J codec opened log before
      → HasDistinctKeys m
      → ((j : ℕ) (call : Call) → Dict.get j m ≡ some call → before j ≡ some call)
      → ((j : ℕ) → book j ≡ (if any (hits p j) m then none else before j))
      → Exchange J codec opened (cut_log (keep_if p m) ++ log) book
  unfolding Dict.get
  cut_all p [] opened log before book x d held e = rw (fun_ext e) x
  cut_all p ((n, call) ∷ m) opened log before book x (fresh, rest) held e =
      let cut : Book = λ j. if any (hits p j) m then none else before j in
      let ih =
        cut_all p m opened log before cut x rest
          (λ j c h. held j c (ground (arith, h, fresh, nat_beq_iff n j))) (λ j. refl) in
      elim (Bool-cases (p (n, call))) [
        | inl t ↦ rw t (
            replies n call (disconnect_error J call.0) ih
              (ground
                (arith, hits_absent p n m fresh, held n call (ground (arith, nat_beq_iff n n))))
              (cut_off refl) (λ j. ground (arith, e j, t)))
        | inr f ↦ let same : book ≡ cut = fun_ext (λ j. ground (arith, e j, f)) in rw f (rw same ih)
      ]

  -- What the log says was delivered.
  abbrev pub deliveries : List (ℕ × Call × Response Value) → List (ℕ × Response Value)
  deliveries [] = []
  deliveries ((n, call, r) ∷ log) = (call.1, r) ∷ deliveries log

  pub deliveries-append :
      (xs ys : List (ℕ × Call × Response Value))
      → deliveries (xs ++ ys) ≡ deliveries xs ++ deliveries ys
  deliveries-append [] ys = refl
  deliveries-append ((n, call, r) ∷ xs) ys = cc (deliveries-append xs ys)

  pub deliveries-cut_log :
      (m : List (ℕ × Call))
      → deliveries (cut_log m) ≡ map (λ e. (e.1.1, disconnect_error J e.1.0)) m
  deliveries-cut_log [] = refl
  deliveries-cut_log ((n, call) ∷ m) = cc (deliveries-cut_log m)
