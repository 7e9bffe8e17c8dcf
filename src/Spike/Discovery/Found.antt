-- ===== src/Spike/Discovery/Found.antt =====
-- spikes/b1-ipc-spike/src/main.rs: what discover_live_instances finds, and what it leaves.
use mathlib.Core.List.{filter_map}
use brp_spec.Base.{
  ℕ, ◌≡◌, refl, inl, inr, ◌↔◌, Bool, true, false, not, Option, some, List, [], ◌∷◌, Option-cases,
  keep_if, In, In-keep_if, all, ok, arith,
}
use brp_spec.Spike.{LockfileData, SpikeCodec, SpikeAnswers, Entry, SpikeDisk}
use brp_spec.Spike.Discovery.{sort_mru, discover_live_instances}
use brp_spec.Spike.Discovery.Loop.{
  Holds, candidate_of, removes, scan-keep_if, visit-live_iff, visit-stale_iff,
}
use brp_spec.Spike.Discovery.Sorted.{IsMru, sort_mru-IsMru, In-sort_mru}

module _ {A B : Type 0} (f : A → Option B) where
  In-filter_map : (b : B) (l : List A) → In b (filter_map f l) ↔ ((a : A) × In a l × (f a ≡ some b))
  unfolding filter_map
  In-filter_map b [] = (λ h. absurd h, λ (a, m, e). absurd m)
  In-filter_map b (x ∷ xs) = elim (Option-cases (f x)) [
    | inl n ↦
        rw (n, filter_map)
          (
            λ h. let (a, m, e) = (In-filter_map b xs).0 h in (a, inr m, e),
            λ (a, m, e). elim m [
              | inl q ↦ cc (q, n, e)
              | inr m' ↦ (In-filter_map b xs).1 (a, m', e)
            ],
          )
    | inr (c, n) ↦
        rw (n, filter_map)
          (
            λ h. elim h [
              | inl q ↦ (x, inl refl, cc (q, n))
              | inr h' ↦ let (a, m, e) = (In-filter_map b xs).0 h' in (a, inr m, e)
            ],
            λ (a, m, e). elim m [
              | inl q ↦ inl (cc (q, n, e))
              | inr m' ↦ inr ((In-filter_map b xs).1 (a, m', e))
            ],
          )
  ]

module _ (codec : SpikeCodec) (alive : ℕ → Bool) where
  -- A lockfile whose process is alive, and one whose process is not.
  abbrev pub HoldsLive : LockfileData → Entry → Type 0
  HoldsLive d e = Holds codec e d × (alive d.pid ≡ true)

  abbrev pub IsStale : Entry → Type 0
  IsStale e = (d : LockfileData) × Holds codec e d × (alive d.pid ≡ false)

  -- What a discovery over `entries` leaves of them, and what it finds.
  pub record IsDiscovered (io : SpikeAnswers) (entries left : List Entry)
      (found : List LockfileData) : Type 0 where
    pub ordered : IsMru found
    pub found_iff : (d : LockfileData) → In d found ↔ ((e : Entry) × In e entries × HoldsLive d e)
    pub left_iff :
        (e : Entry) → In e left ↔ (In e entries × (¬ (IsStale e × (io.removed e.name ≡ true))))

  removes-false_iff :
      (io : SpikeAnswers) (e : Entry)
      → (not (removes codec alive io e) ≡ true) ↔ (¬ (IsStale e × (io.removed e.name ≡ true)))
  removes-false_iff io e = ground (arith, visit-stale_iff codec alive e)

  scanned-IsDiscovered :
      (io : SpikeAnswers) (entries : List Entry)
      → IsDiscovered io entries
          (keep_if (λ e. not (removes codec alive io e)) entries)
          (sort_mru (filter_map (candidate_of codec alive) entries))
  scanned-IsDiscovered io entries = record {
    ordered = sort_mru-IsMru (filter_map (candidate_of codec alive) entries);
    found_iff = λ d.
        let sorted = In-sort_mru d (filter_map (candidate_of codec alive) entries) in
        let chosen = In-filter_map (candidate_of codec alive) d entries in
        (
          λ m.
              let (e, m', c) = chosen.0 (sorted.0 m) in
              (e, m', (visit-live_iff codec alive e d).0 c),
          λ (e, m', h). sorted.1 (chosen.1 (e, m', (visit-live_iff codec alive e d).1 h)),
        );
    left_iff = λ e.
        let kept = In-keep_if (λ x. not (removes codec alive io x)) e entries in
        (
          λ m. let (m', k) = kept.0 m in (m', (removes-false_iff io e).0 k),
          λ (m', k). kept.1 (m', (removes-false_iff io e).1 k),
        );
  }

  -- A discovery that can list its directory, as one equation.
  pub discover-keep_if :
      (io : SpikeAnswers) (disk : SpikeDisk) (entries : List Entry)
      → disk.lockfile_dir ≡ some entries
      → io.opened ≡ true
      → all (λ e. io.listed e.name) entries ≡ true
      → discover_live_instances codec alive io disk ≡ (
        record disk { lockfile_dir = some (keep_if (λ e. not (removes codec alive io e)) entries) },
        ok (sort_mru (filter_map (candidate_of codec alive) entries)),
      )
  unfolding discover_live_instances
  discover-keep_if io disk entries there opened listed =
      rw (discover_live_instances, there, opened, scan-keep_if codec alive io entries listed) refl

  -- A discovery in a directory that can be listed ends without a panic. It finds exactly the data
  -- of the readable, well-formed lockfiles whose process is alive, each after those with a later
  -- start as the texts compare; it leaves exactly the entries that are no lockfile of a dead
  -- process that could be removed; and the sockets stay.
  pub discover_live_instances-IsDiscovered :
      (io : SpikeAnswers) (disk : SpikeDisk) (entries : List Entry)
      → disk.lockfile_dir ≡ some entries
      → io.opened ≡ true
      → all (λ e. io.listed e.name) entries ≡ true
      → (left : List Entry) × (found : List LockfileData) × (discover_live_instances codec alive io
            disk
          ≡ (record disk { lockfile_dir = some left }, ok found))
        × IsDiscovered io entries left found
  discover_live_instances-IsDiscovered io disk entries there opened listed = (
    keep_if (λ e. not (removes codec alive io e)) entries,
    sort_mru (filter_map (candidate_of codec alive) entries),
    discover-keep_if io disk entries there opened listed,
    scanned-IsDiscovered io entries,
  )
