-- ===== src/Exchange/Once.antt =====
-- What the promise amounts to: no call is answered twice.
use native.Mathlib.Omega.{arith}
use brp_spec.Base.{
  ℕ, some, List, [], ◌∷◌, nat_eq, ◌==◌, Bool-cases, ◌≡◌, inl, inr, ap, In, nat_beq_iff,
}
use brp_spec.Json.{SerdeJson}
use brp_spec.Message.{Response, Codec}
use brp_spec.Exchange.{
  Call, Book, numbers, answered, IsReply, Exchange, opens_empty, opens, replies, gives_up,
}

-- No number twice.
abbrev pub AllDistinct : List ℕ → Type 0
AllDistinct [] = Unit
AllDistinct (n ∷ ns) = (¬ In n ns) × AllDistinct ns

In-numbers :
    (n : ℕ) (call : Call) (opened : List (ℕ × Call)) → In (n, call) opened → In n (numbers opened)
In-numbers n call [] h = h
In-numbers n call (e ∷ opened) h = elim h [
  | inl q ↦ inl (ap (λ p. p.0) q)
  | inr m ↦ inr (In-numbers n call opened m)
]

module _ (J : SerdeJson) (codec : Codec J) where
  open J use {Value}

  -- Every reply in the log answers a call that was opened under its number.
  abbrev pub AnswersOpened : List (ℕ × Call) → List (ℕ × Call × Response Value) → Type 0
  AnswersOpened opened [] = Unit
  AnswersOpened opened ((n, call, r) ∷ log) =
      In (n, call) opened × IsReply J codec call r × AnswersOpened opened log

  AnswersOpened-cons :
      (opened : List (ℕ × Call)) (e : ℕ × Call) (log : List (ℕ × Call × Response Value))
      → AnswersOpened opened log
      → AnswersOpened (e ∷ opened) log
  AnswersOpened-cons opened e [] h = tt
  AnswersOpened-cons opened e ((n, call, r) ∷ log) (m, reply, rest) =
      (inr m, reply, AnswersOpened-cons opened e log rest)

  answered_opened :
      (n : ℕ) (opened : List (ℕ × Call)) (log : List (ℕ × Call × Response Value))
      → AnswersOpened opened log
      → In n (answered log)
      → In n (numbers opened)
  answered_opened n opened [] h m = absurd m
  answered_opened n opened ((k, call, r) ∷ log) (here, reply, rest) m = elim m [
    | inl e ↦ rw e (In-numbers k call opened here)
    | inr later ↦ answered_opened n opened log rest later
  ]

  pub record IsOrderly (opened : List (ℕ × Call)) (log : List (ℕ × Call × Response Value))
      (book : Book) : Type 0 where
    pub once : AllDistinct (answered log)
    pub answers : AnswersOpened opened log
    pub known : (n : ℕ) (call : Call) → book n ≡ some call → In (n, call) opened
    pub waits : (n : ℕ) (call : Call) → book n ≡ some call → ¬ In n (answered log)

  pub Exchange-IsOrderly :
      {opened : List (ℕ × Call)} {log : List (ℕ × Call × Response Value)} {book : Book}
      → Exchange J codec opened log book
      → IsOrderly opened log book
  Exchange-IsOrderly (opens_empty {book} empty) = record {
    once = tt;
    answers = tt;
    known = λ n call e. ground (arith, empty n);
    waits = λ n call e. ground (arith, empty n);
  }
  Exchange-IsOrderly (opens {opened} {log} {before} {book} n call x fresh e) =
      let v = Exchange-IsOrderly x in
      record {
        once = v.once;
        answers = AnswersOpened-cons opened (n, call) log v.answers;
        known = λ m c h. ground (arith, h, e m, v.known m c, nat_beq_iff n m);
        waits = λ m c h. elim (Bool-cases (n == m)) [
          | inl same ↦ λ i.
              fresh (answered_opened n opened log v.answers (rw (← (nat_beq_iff n m).0 same) at i))
          | inr other ↦ v.waits m c (ground (arith, h, e m))
        ];
      }
  Exchange-IsOrderly (replies {opened} {log} {before} {book} n call r x waiting reply e) =
      let v = Exchange-IsOrderly x in
      record {
        once = (v.waits n call waiting, v.once);
        answers = (v.known n call waiting, reply, v.answers);
        known = λ m c h. v.known m c (ground (arith, h, e m));
        waits = λ m c h i. elim i [
          | inl same ↦ ground (arith, h, e m, nat_beq_iff n m)
          | inr earlier ↦ v.waits m c (ground (arith, h, e m)) earlier
        ];
      }
  Exchange-IsOrderly (gives_up {opened} {log} {before} {book} n x e) =
      let v = Exchange-IsOrderly x in
      record {
        once = v.once;
        answers = v.answers;
        known = λ m c h. v.known m c (ground (arith, h, e m));
        waits = λ m c h. v.waits m c (ground (arith, h, e m));
      }
