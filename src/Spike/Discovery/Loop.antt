-- ===== src/Spike/Discovery/Loop.antt =====
-- spikes/b1-ipc-spike/src/main.rs: the loop of discover_live_instances over its entries.
use mathlib.Core.List.{filter_map}
use brp_spec.Base.{
  ℕ, String, ◌≡◌, refl, sym, subst, ◌⊎◌, inl, inr, ◌↔◌, Bool, true, false, not, ◌&&◌, Option, none,
  some, List, [], ◌∷◌, if◌then◌else◌, Bool-cases, Option-cases, keep_if, all, ok, arith,
}
use brp_spec.Spike.{LockfileData, SpikeCodec, SpikeAnswers, Entry}
use brp_spec.Spike.Discovery.{Visit, skipped, live, stale, has_json_extension, visit, scan}

-- The entry is a lockfile that can be read, with these data.
pub record Holds (codec : SpikeCodec) (entry : Entry) (found : LockfileData) : Type 0 where
  pub text : String
  pub extension : has_json_extension entry.name ≡ true
  pub readable : entry.contents ≡ some text
  pub parsed : codec.from_str text ≡ some found

abbrev pub candidate : Visit → Option LockfileData
candidate skipped = none
candidate (live found) = some found
candidate (stale found) = none

abbrev pub is_stale : Visit → Bool
is_stale skipped = false
is_stale (live found) = false
is_stale (stale found) = true

pub Holds-unique :
    (codec : SpikeCodec) (entry : Entry) (c d : LockfileData)
    → Holds codec entry c
    → Holds codec entry d
    → c ≡ d
Holds-unique codec entry c d h k = cc (h.readable, h.parsed, k.readable, k.parsed)

module _ (codec : SpikeCodec) (alive : ℕ → Bool) where
  abbrev pub candidate_of : Entry → Option LockfileData
  candidate_of entry = candidate (visit codec alive entry)

  abbrev pub removes : SpikeAnswers → Entry → Bool
  removes io entry = is_stale (visit codec alive entry) && io.removed entry.name

  abbrev pub Visited : Entry → Type 0
  Visited entry =
      ((found : LockfileData) × Holds codec entry found
        × (visit codec alive entry ≡ (if alive found.pid then live found else stale found)))
      ⊎ (((found : LockfileData) → ¬ Holds codec entry found) × (visit codec alive entry ≡ skipped))

  -- The three ends of a visit.
  visit-cases : (entry : Entry) → Visited entry
  unfolding visit
  visit-cases entry = elim (Bool-cases (has_json_extension entry.name)) [
    | inr f ↦ inr (λ d h. cc (f, h.extension), rw (f, visit) refl)
    | inl t ↦ elim (Option-cases entry.contents) [
      | inl e ↦ inr (λ d h. cc (e, h.readable), rw (t, e, visit) refl)
      | inr (text, e) ↦ elim (Option-cases (codec.from_str text)) [
        | inl e' ↦ inr (λ d h. cc (e, e', h.readable, h.parsed), rw (t, e, visit, e') refl)
        | inr (d, e') ↦ inl (
          d,
          record { text = text; extension = t; readable = e; parsed = e' },
          rw (t, e, visit, e') refl,
        )
      ]
    ]
  ]

  pub scan-keep_if :
      (io : SpikeAnswers) (entries : List Entry)
      → all (λ e. io.listed e.name) entries ≡ true
      → scan codec alive io entries
        ≡ (keep_if (λ e. not (removes io e)) entries, ok (filter_map candidate_of entries))
  unfolding scan filter_map
  scan-keep_if io [] h = refl
  scan-keep_if io (e ∷ es) h =
      let listed : io.listed e.name ≡ true = ground arith in
      let ih = scan-keep_if io es (ground arith) in
      elim (visit-cases e) [
        | inr (none_held, v) ↦ rw (listed, scan, v, ih) refl
        | inl (d, held, v) ↦ elim (Bool-cases (alive d.pid)) [
          | inl a ↦
              let v' : visit codec alive e ≡ live d = ground (arith, v, a) in
              rw (listed, scan, v', ih) refl
          | inr a ↦
              let v' : visit codec alive e ≡ stale d = ground (arith, v, a) in
              rw (listed, scan, v', ih) (ground arith)
        ]
      ]

  -- A live entry and a stale entry, by what they hold.
  pub visit-live_iff :
      (entry : Entry) (d : LockfileData)
      → (candidate_of entry ≡ some d) ↔ (Holds codec entry d × (alive d.pid ≡ true))
  visit-live_iff entry d = elim (visit-cases entry) [
    | inr (none_held, v) ↦ (λ h. cc (v, h), λ (k, a). absurd (none_held d k))
    | inl (c, held, v) ↦ (
      λ h. elim (Bool-cases (alive c.pid)) [
        | inl a ↦
            let e : c ≡ d = ground (arith, v, a, h) in
            (subst (Holds codec entry) e held, subst (λ x. alive x.pid ≡ true) e a)
        | inr a ↦ let no_candidate : ⊥ = ground (arith, v, a, h) in absurd no_candidate
      ],
      λ (k, a).
          let e = Holds-unique codec entry c d held k in
          let a' = subst (λ x. alive x.pid ≡ true) (sym e) a in ground (arith, v, a', e),
    )
  ]

  pub visit-stale_iff :
      (entry : Entry)
      → (is_stale (visit codec alive entry) ≡ true)
        ↔ ((d : LockfileData) × Holds codec entry d × (alive d.pid ≡ false))
  visit-stale_iff entry = elim (visit-cases entry) [
    | inr (none_held, v) ↦ (λ h. cc (v, h), λ (d, k, a). absurd (none_held d k))
    | inl (c, held, v) ↦ (
      λ h. elim (Bool-cases (alive c.pid)) [
        | inl a ↦ let no_stale : ⊥ = ground (arith, v, a, h) in absurd no_stale
        | inr a ↦ (c, held, a)
      ],
      λ (d, k, a).
          let e = Holds-unique codec entry c d held k in
          let a' = subst (λ x. alive x.pid ≡ false) (sym e) a in ground (arith, v, a'),
    )
  ]
