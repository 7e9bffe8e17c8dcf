-- ===== src/Spike/Started.antt =====
-- spikes/b1-ipc-spike/src/main.rs: the lockfile of a bridge that has started, as a discovery finds
-- it.
use brp_spec.Base.{
  ℕ, ◌^◌, ◌≤◌, ◌<◌, String, ◌≡◌, ◌≢◌, refl, sym, subst, ◌∙◌, ap, ◌⊎◌, inl, inr, Bool, true, false,
  Option, none, some, unwrap_or, List, [], ◌∷◌, In, All, Bool-cases, Option-cases, ok, arith,
}
use brp_spec.Base.TextOrder.{text_leb}
use brp_spec.Spike.{
  LockfileData, SpikeCodec, SpikeAnswers, Entry, SpikeDisk, ipc_path, now_iso8601, create_listener,
  put_entry, write_lockfile,
}
use brp_spec.Spike.Bridge.{Starting, Running, own_data, lockfile_name, announce, start_bridge}
use brp_spec.Spike.Clock.{now_iso8601-le_iff}
use brp_spec.Spike.Files.{In-put_entry, lockfile_name-extension}
use brp_spec.Spike.Discovery.Loop.{Holds, Holds-unique}
use brp_spec.Spike.Discovery.Sorted.{IsMru, IsNotAfter}
use brp_spec.Spike.Discovery.Found.{HoldsLive, IsDiscovered}

create_listener-keeps :
    (windows : Bool) (io : SpikeAnswers) (id : String) (disk : SpikeDisk)
    → ((create_listener windows io id disk).0.lockfile_dir ≡ disk.lockfile_dir)
      × (((create_listener windows io id disk).1 ≡ none)
          ⊎ ((create_listener windows io id disk).1 ≡ some (ipc_path windows id)))
unfolding create_listener
create_listener-keeps windows io id disk = ground arith

announce-ok :
    (codec : SpikeCodec) (io : SpikeAnswers) (me : Starting) (made : SpikeDisk × Option String)
    (disk' : SpikeDisk) (running : Running)
    → announce codec io me made ≡ (disk', ok running)
    → (path : String) × (made.1 ≡ some path)
      × (running ≡ record { ipc_path = path; lockfile = lockfile_name me.pid })
      × (disk'.lockfile_dir
          ≡ some (
              put_entry
                (lockfile_name me.pid)
                (codec.to_string_pretty (own_data me path))
                (unwrap_or made.0.lockfile_dir [])))
unfolding announce write_lockfile
announce-ok codec io me (disk, none) disk' running h = cc (ap (λ r. r.1) h)
announce-ok codec io me (disk, some path) disk' running h = (
  path,
  refl,
  ground (arith, h, Option-cases io.partial),
  ground (arith, h, Option-cases io.partial),
)

All-In :
    (P : LockfileData → Type 0) (d : LockfileData) (ds : List LockfileData)
    → All P ds
    → In d ds
    → P d
All-In P d [] h m = absurd m
All-In P d (c ∷ ds) (h, hs) m = elim m [ inl e ↦ subst P (sym e) h | inr m' ↦ All-In P d ds hs m' ]

-- What is newer than all others stands first.
mru-first :
    (own : LockfileData) (found : List LockfileData)
    → IsMru found
    → In own found
    → ((d : LockfileData) → In d found → (d ≡ own) ⊎ (text_leb own.started_at d.started_at ≡ false))
    → (others : List LockfileData) × (found ≡ own ∷ others)
mru-first own [] s m older = absurd m
mru-first own (a ∷ ds) (below, s) m older = elim (older a (inl refl)) [
  | inl e ↦ (ds, ap (λ x. x ∷ ds) e)
  | inr f ↦ elim m [
    | inl e ↦ (ds, ap (λ x. x ∷ ds) (sym e))
    | inr m' ↦ let above = All-In (IsNotAfter a) own ds below m' in cc (above, f)
  ]
]

module _ (codec : SpikeCodec) (windows : Bool) (me : Starting) where
  -- The data of the bridge, and their file.
  abbrev pub mine : LockfileData
  mine = own_data me (ipc_path windows me.instance_id)

  abbrev pub own_entry : Entry
  own_entry = record { name = lockfile_name me.pid; contents = some (codec.to_string_pretty mine) }

  abbrev pub own_running : Running
  own_running = record {
    ipc_path = ipc_path windows me.instance_id;
    lockfile = lockfile_name me.pid;
  }

  pub start_bridge-lockfile :
      (io : SpikeAnswers) (disk disk' : SpikeDisk) (running : Running)
      → start_bridge codec windows io me disk ≡ (disk', ok running)
      → (disk'.lockfile_dir
          ≡ some (
              put_entry
                (lockfile_name me.pid)
                (codec.to_string_pretty mine)
                (unwrap_or disk.lockfile_dir [])))
        × (running ≡ own_running)
  unfolding start_bridge
  start_bridge-lockfile io disk disk' running h =
      let made = create_listener windows io me.instance_id disk in
      let (same, listens) = create_listener-keeps windows io me.instance_id disk in
      let (path, e, served, left) = announce-ok codec io me made disk' running h in
      elim listens [
        | inl nothing ↦ cc (nothing, e)
        | inr there ↦
            let p : path ≡ ipc_path windows me.instance_id = cc (there, e) in
            (left ∙ cc (p, same), served ∙ cc p)
      ]

  -- Another process started earlier, both in seconds of ten digits.
  abbrev pub StartedBefore : LockfileData → Type 0
  StartedBefore d = (s : ℕ) × (d.started_at ≡ now_iso8601 s) × (10 ^ 9 ≤ s) × (s < me.secs)

  before-not_after :
      (d : LockfileData)
      → me.secs < 10 ^ 10
      → StartedBefore d
      → text_leb mine.started_at d.started_at ≡ false
  unfolding own_data
  before-not_after d h (s, e, ls, lt) =
      elim (Bool-cases (text_leb (now_iso8601 me.secs) (now_iso8601 s))) [
        | inl t ↦
            let le = (now_iso8601-le_iff me.secs s (omega arith) h ls (omega arith)).0 t in
            absurd (omega (arith, le, lt))
        | inr f ↦ cc (e, f)
      ]

  -- The bridge's own entry holds its data, if they are read back.
  own-Holds : codec.from_str (codec.to_string_pretty mine) ≡ some mine → Holds codec own_entry mine
  own-Holds back = record {
    text = codec.to_string_pretty mine;
    extension = lockfile_name-extension me.pid;
    readable = refl;
    parsed = back;
  }

  -- Where all other live bridges started earlier, the bridge is the first candidate.
  pub own-first :
      (alive : ℕ → Bool) (io : SpikeAnswers) (entries left : List Entry) (found : List LockfileData)
      → IsDiscovered codec alive io
          (put_entry (lockfile_name me.pid) (codec.to_string_pretty mine) entries)
          left
          found
      → codec.from_str (codec.to_string_pretty mine) ≡ some mine
      → alive me.pid ≡ true
      → me.secs < 10 ^ 10
      → ((e : Entry) (d : LockfileData)
          → In e entries
          → e.name ≢ lockfile_name me.pid
          → HoldsLive codec alive d e
          → StartedBefore d)
      → (others : List LockfileData) × (found ≡ mine ∷ others)
  unfolding own_data
  own-first alive io entries left found seen back living h before =
      let name = lockfile_name me.pid in
      let contents = codec.to_string_pretty mine in
      let held = own-Holds back in
      let there = (In-put_entry name contents entries own_entry).1 (inr refl) in
      mru-first mine found seen.ordered ((seen.found_iff mine).1 (own_entry, there, (held, living)))
        λ d m.
          let (e, m', (k, a)) = (seen.found_iff d).0 m in
          elim ((In-put_entry name contents entries e).0 m') [
            | inl (m'', other) ↦ inr (before-not_after d h (before e d m'' other (k, a)))
            | inr same ↦
                inl (Holds-unique codec own_entry d mine (subst (λ x. Holds codec x d) same k) held)
          ]
