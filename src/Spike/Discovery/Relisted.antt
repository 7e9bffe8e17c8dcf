-- ===== src/Spike/Discovery/Relisted.antt =====
-- spikes/b1-ipc-spike/src/main.rs: discovery does not depend on the order of the directory, and a
-- second discovery finds the same.
use mathlib.Core.List.{filter_map, Permᴰ, Pairwise, mem-cons_self}
use mathlib.Core.List.Permᴰ
use brp_spec.Base.{
  ℕ, ◌≡◌, ◌≢◌, refl, sym, ap, ◌∙◌, Bool, true, not, some, List, [], ◌∷◌, keep_if, all, ok, arith,
}
use brp_spec.Base.TextOrder.{text_leb_total, text_leb_trans, text_leb_antisymm}
use brp_spec.Spike.{LockfileData, SpikeCodec, SpikeAnswers, Entry, SpikeDisk}
use brp_spec.Spike.Discovery.{insert_mru, sort_mru, discover_live_instances}
use brp_spec.Spike.Discovery.Loop.{candidate_of, removes}
use brp_spec.Spike.Discovery.Found.{discover-keep_if}

-- The two did not start at the same time, as their texts say.
abbrev pub StartedApart : LockfileData → LockfileData → Type 0
StartedApart a b = a.started_at ≢ b.started_at

insert_mru_comm :
    (a b : LockfileData) (l : List LockfileData)
    → StartedApart a b
    → insert_mru a (insert_mru b l) ≡ insert_mru b (insert_mru a l)
unfolding insert_mru
insert_mru_comm a b [] apart =
    let s = a.started_at in
    let t = b.started_at in ground (arith, text_leb_total s t, text_leb_antisymm s t)
insert_mru_comm a b (c ∷ l) apart =
    let s = a.started_at in
    let t = b.started_at in
    let u = c.started_at in
    ground (
      arith,
      insert_mru_comm a b l apart,
      text_leb_total s t,
      text_leb_antisymm s t,
      text_leb_total u s,
      text_leb_total u t,
      text_leb_trans s u t,
      text_leb_trans t u s,
      text_leb_trans u s t,
      text_leb_trans u t s,
    )

StartedApart-symm : (a b : LockfileData) → StartedApart a b → StartedApart b a
StartedApart-symm a b h e = h (sym e)

pub StartedApart-prop : (a b : LockfileData) → IsProp (StartedApart a b)
StartedApart-prop a b = hlevel

sort_mru-Perm :
    {k l : List LockfileData} → Permᴰ k l → Pairwise StartedApart k → sort_mru k ≡ sort_mru l
unfolding sort_mru
sort_mru-Perm Permᴰ.nil apart = refl
sort_mru-Perm (Permᴰ.cons {a = a} {l₁ = k} {l₂ = l} e p) (Pairwise.cons h apart) =
    cc (e, sort_mru-Perm p apart)
sort_mru-Perm (Permᴰ.swap {a = a} {b = b} {l = l} e e') (Pairwise.cons h apart) =
    cc (e, e', insert_mru_comm a b (sort_mru l) (h b mem-cons_self))
sort_mru-Perm (Permᴰ.trans p q) apart =
    sort_mru-Perm p apart
    ∙ sort_mru-Perm q (Permᴰ.pairwise StartedApart-prop StartedApart-symm p apart)

module _ (codec : SpikeCodec) (alive : ℕ → Bool) where
  -- The candidates do not depend on the order in which the directory is listed: two discoveries
  -- over the same entries in different orders, both able to list them, return the same list in the
  -- same order, if no two candidates have the same `started_at`.
  pub discover_live_instances-Perm :
      (io io' : SpikeAnswers) (disk disk' : SpikeDisk) (es fs : List Entry)
      → disk.lockfile_dir ≡ some es
      → disk'.lockfile_dir ≡ some fs
      → io.opened ≡ true
      → io'.opened ≡ true
      → all (λ e. io.listed e.name) es ≡ true
      → all (λ e. io'.listed e.name) fs ≡ true
      → Permᴰ es fs
      → Pairwise StartedApart (filter_map (candidate_of codec alive) es)
      → (discover_live_instances codec alive io disk).1
        ≡ (discover_live_instances codec alive io' disk').1
  discover_live_instances-Perm io io' disk disk' es fs there there' opened opened' h h' p apart =
      ap (λ r. r.1) (discover-keep_if codec alive io disk es there opened h)
      ∙ ap ok (sort_mru-Perm (Permᴰ.filter_map (candidate_of codec alive) p) apart)
      ∙ sym (ap (λ r. r.1) (discover-keep_if codec alive io' disk' fs there' opened' h'))

  keep_if_twice : (f : Entry → Bool) (es : List Entry) → keep_if f (keep_if f es) ≡ keep_if f es
  keep_if_twice f [] = refl
  keep_if_twice f (e ∷ es) = ground (arith, keep_if_twice f es)

  all-keep_if :
      (f g : Entry → Bool) (es : List Entry) → all g es ≡ true → all g (keep_if f es) ≡ true
  all-keep_if f g [] h = refl
  all-keep_if f g (e ∷ es) h = ground (arith, all-keep_if f g es)

  filter_map-keep_if :
      (io : SpikeAnswers) (es : List Entry)
      → filter_map (candidate_of codec alive) (keep_if (λ e. not (removes codec alive io e)) es)
        ≡ filter_map (candidate_of codec alive) es
  unfolding filter_map
  filter_map-keep_if io [] = refl
  filter_map-keep_if io (e ∷ es) = ground (arith, filter_map-keep_if io es)

  -- A second discovery, with the same processes alive and the same answers, finds the same list and
  -- leaves the disk as the first one left it.
  discover_live_instances_twice :
      (io : SpikeAnswers) (disk : SpikeDisk) (entries : List Entry)
      → disk.lockfile_dir ≡ some entries
      → io.opened ≡ true
      → all (λ e. io.listed e.name) entries ≡ true
      → let first = discover_live_instances codec alive io disk in
        discover_live_instances codec alive io first.0 ≡ first
  discover_live_instances_twice io disk entries there opened listed =
      let f = λ (e : Entry). not (removes codec alive io e) in
      let first = discover-keep_if codec alive io disk entries there opened listed in
      let left = keep_if f entries in
      rw first (
        discover-keep_if codec alive io (record disk { lockfile_dir = some left }) left refl opened
          (all-keep_if f (λ e. io.listed e.name) entries listed)
        ∙ rw (keep_if_twice f entries, filter_map-keep_if io entries) refl)
