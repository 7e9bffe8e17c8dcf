-- ===== src/Spike/Discovery/Sorted.antt =====
-- spikes/b1-ipc-spike/src/main.rs: the order of the candidates.
use brp_spec.Base.{◌≡◌, inl, inr, ◌⊎◌, ◌↔◌, true, List, [], ◌∷◌, Bool-cases, In, All, arith}
use brp_spec.Base.TextOrder.{text_leb, text_leb_total, text_leb_trans}
use brp_spec.Spike.{LockfileData}
use brp_spec.Spike.Discovery.{insert_mru, sort_mru}

-- `b` did not start after `a`, as the texts are compared.
abbrev pub IsNotAfter : LockfileData → LockfileData → Type 0
IsNotAfter a b = text_leb b.started_at a.started_at ≡ true

-- Nothing started after what stands before it.
abbrev pub IsMru : List LockfileData → Type 0
IsMru [] = Unit
IsMru (a ∷ bs) = All (IsNotAfter a) bs × IsMru bs

IsNotAfter-trans : (a b c : LockfileData) → IsNotAfter a b → IsNotAfter b c → IsNotAfter a c
IsNotAfter-trans a b c h k = text_leb_trans c.started_at b.started_at a.started_at k h

All-trans :
    (a b : LockfileData) (cs : List LockfileData)
    → IsNotAfter a b
    → All (IsNotAfter b) cs
    → All (IsNotAfter a) cs
All-trans a b [] h below = tt
All-trans a b (c ∷ cs) h (k, below) = (IsNotAfter-trans a b c h k, All-trans a b cs h below)

All-insert_mru :
    (P : LockfileData → Type 0) (a : LockfileData) (bs : List LockfileData)
    → P a
    → All P bs
    → All P (insert_mru a bs)
unfolding insert_mru
All-insert_mru P a [] h below = (h, tt)
All-insert_mru P a (b ∷ bs) h (k, below) = elim (Bool-cases (text_leb b.started_at a.started_at)) [
  | inl t ↦ rw (t, insert_mru) (h, (k, below))
  | inr f ↦ rw (f, insert_mru) (k, All-insert_mru P a bs h below)
]

insert_mru-IsMru : (a : LockfileData) (bs : List LockfileData) → IsMru bs → IsMru (insert_mru a bs)
unfolding insert_mru
insert_mru-IsMru a [] s = (tt, tt)
insert_mru-IsMru a (b ∷ bs) (below, s) = elim (Bool-cases (text_leb b.started_at a.started_at)) [
  | inl t ↦ rw (t, insert_mru) ((t, All-trans a b bs t below), (below, s))
  | inr f ↦
      let h = text_leb_total b.started_at a.started_at f in
      rw (f, insert_mru) (All-insert_mru (IsNotAfter b) a bs h below, insert_mru-IsMru a bs s)
]

pub sort_mru-IsMru : (found : List LockfileData) → IsMru (sort_mru found)
unfolding sort_mru
sort_mru-IsMru [] = tt
sort_mru-IsMru (a ∷ bs) = insert_mru-IsMru a (sort_mru bs) (sort_mru-IsMru bs)

In-insert_mru :
    (d a : LockfileData) (bs : List LockfileData) → In d (insert_mru a bs) ↔ ((d ≡ a) ⊎ In d bs)
unfolding insert_mru
In-insert_mru d a [] = ground arith
In-insert_mru d a (b ∷ bs) = ground (arith, In-insert_mru d a bs)

pub In-sort_mru : (d : LockfileData) (bs : List LockfileData) → In d (sort_mru bs) ↔ In d bs
unfolding sort_mru
In-sort_mru d [] = ground arith
In-sort_mru d (a ∷ bs) = ground (arith, In-insert_mru d a (sort_mru bs), In-sort_mru d bs)
