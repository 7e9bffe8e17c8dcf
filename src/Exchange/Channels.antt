-- ===== src/Exchange/Channels.antt =====
-- What the tasks that wait on the oneshot channels see.
use brp_spec.Base.{ℕ, ◌+◌, ◌^◌, ◌<◌, List, [], ◌∷◌, length, ◌≡◌, inl, inr, refl, sym, ◌∙◌, ap, In}
use brp_spec.Json.{SerdeJson}
use brp_spec.Message.{Response, Codec}
use brp_spec.Router.State.{BridgeState}
use brp_spec.Exchange.{Call, answered}
use brp_spec.Exchange.Once.{AllDistinct, AnswersOpened, Exchange-IsOrderly}
use brp_spec.Exchange.Runs.{Run}
use brp_spec.Exchange.Pending.{deliveries}
use brp_spec.Exchange.Refines.{Run-Refines}

abbrev pub channels : List (ℕ × Call) → List ℕ
channels [] = []
channels ((n, call) ∷ opened) = call.1 ∷ channels opened

-- The channels of the responses delivered.
abbrev pub reached : {V : Type 0} → List (ℕ × Response V) → List ℕ
reached [] = []
reached ((channel, r) ∷ sent) = channel ∷ reached sent

In-channels :
    (n : ℕ) (call : Call) (opened : List (ℕ × Call))
    → In (n, call) opened
    → In call.1 (channels opened)
In-channels n call [] h = absurd h
In-channels n call (e ∷ opened) h = elim h [
  | inl q ↦ inl (ap (λ (x : ℕ × Call). x.1.1) q)
  | inr m ↦ inr (In-channels n call opened m)
]

-- Calls with different channels: the channel tells the number.
same_number :
    (opened : List (ℕ × Call)) (n m : ℕ) (call call' : Call)
    → AllDistinct (channels opened)
    → In (n, call) opened
    → In (m, call') opened
    → call.1 ≡ call'.1
    → n ≡ m
same_number [] n m call call' d i j e = absurd i
same_number ((k, c) ∷ opened) n m call call' (fresh, rest) i j e = elim i [
  | inl q ↦ elim j [
    | inl q' ↦ ap (λ (x : ℕ × Call). x.0) (q ∙ sym q')
    | inr j' ↦
        absurd
          (fresh (rw (sym (ap (λ (x : ℕ × Call). x.1.1) q) ∙ e) (In-channels m call' opened j')))
  ]
  | inr i' ↦ elim j [
    | inl q' ↦
        absurd (
          fresh (rw (sym (ap (λ (x : ℕ × Call). x.1.1) q') ∙ sym e) (In-channels n call opened i')))
    | inr j' ↦ same_number opened n m call call' rest i' j' e
  ]
]

module _ (J : SerdeJson) (codec : Codec J) where
  open J use {Value}

  In-reached :
      (opened : List (ℕ × Call)) (log : List (ℕ × Call × Response Value)) (channel : ℕ)
      → AnswersOpened J codec opened log
      → In channel (reached (deliveries J codec log))
      → (n : ℕ) × (call : Call) × In (n, call) opened × In n (answered log) × (call.1 ≡ channel)
  In-reached opened [] channel h m = absurd m
  In-reached opened ((n, call, r) ∷ log) channel (here, reply, rest) m = elim m [
    | inl e ↦ (n, call, here, inl refl, sym e)
    | inr later ↦
        let (k, c, o, a, e) = In-reached opened log channel rest later in (k, c, o, inr a, e)
  ]

  reached-AllDistinct :
      (opened : List (ℕ × Call)) (log : List (ℕ × Call × Response Value))
      → AllDistinct (channels opened)
      → AnswersOpened J codec opened log
      → AllDistinct (answered log)
      → AllDistinct (reached (deliveries J codec log))
  reached-AllDistinct opened [] d h once = tt
  reached-AllDistinct opened ((n, call, r) ∷ log) d (here, reply, rest) (new, once) = (
    λ m.
        let (k, c, o, a, e) = In-reached opened log call.1 rest m in
        new (rw (same_number opened n k call c d here o (sym e)) a),
    reached-AllDistinct opened log d rest once,
  )

module _ {S : Type 0} (J : SerdeJson) (codec : Codec J) where
  open J use {Value}

  -- Whatever sections run under the lock, in whatever order, no channel gets two responses,
  -- provided that each request waits on a channel of its own and the i64 counter has not wrapped.
  pub Run-reaches_once :
      {opened : List (ℕ × Call)} {sent : List (ℕ × Response Value)} {s : BridgeState S}
      → Run J codec opened sent s
      → 10000 + length opened < 2 ^ 64
      → AllDistinct (channels opened)
      → AllDistinct (reached sent)
  Run-reaches_once {opened} {sent} {s} r small d =
      let v = Run-Refines J codec r small in
      let o = Exchange-IsOrderly J codec v.exchange in
      rw (← v.delivers) (reached-AllDistinct J codec opened v.log d o.answers o.once)
