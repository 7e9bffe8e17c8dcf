-- ===== src/SocketLock/Stale.antt =====
-- bridge/src/ipc_unix.rs: the socket file that a dead bridge has left, and a socket that is bound
-- but does not listen yet.
use brp_spec.Base.{ℕ, Bool, true, false, nat_eq, [], ◌∷◌, ◌≡◌, ◌≢◌, refl, ap, arith, nat_beq}
use brp_spec.SocketLock.{
  Sockets, SocketLaws, BindAnswer, bound, trying, holding, schedule, acquire_with_path, release,
  is_bridge_running_at,
}

-- Where the user may write the directory: a file that is there can be removed, then it is gone and
-- the path can be bound.
pub record WritableLaws (K : Sockets) : Type 0 where
  pub remove_file-path_exists : (s : K.State) → K.path_exists s ≡ true → (K.remove_file s).1 ≡ true
  pub path_exists-removed :
      (s : K.State) → K.path_exists s ≡ true → K.path_exists (K.remove_file s).0 ≡ false
  pub bind-removed :
      (l : ℕ) (s : K.State) → K.path_exists s ≡ true → (K.bind l (K.remove_file s).0).1 ≡ bound

nat_beq_refl : (n : ℕ) → nat_beq n n ≡ true
nat_beq_refl n = ground arith

-- A socket file to which no connection can be made.
pub record IsStale (K : Sockets) (s : K.State) : Type 0 where
  pub there : K.path_exists s ≡ true
  pub dead : K.connects s ≡ false

module _ (K : Sockets) (L : SocketLaws K) (W : WritableLaws K) where
  open K use {State, bind, listen, connects, path_exists, remove_file, drop_listener}

  -- After a bind and the listen that follows it.
  abbrev listened : ℕ → State → State
  listened l s = (listen l (bind l s).0).0

  -- A path that can be bound, with the two calls of `UnixListener::bind`.
  record Binds (l : ℕ) (s : State) : Type 0 where
    binds : bind l s ≡ ((bind l s).0, bound)
    listens : listen l (bind l s).0 ≡ (listened l s, true)
    there : path_exists (bind l s).0 ≡ true
    down : connects (bind l s).0 ≡ false
    up : connects (listened l s) ≡ true
    stands : path_exists (listened l s) ≡ true

  Binds-bound : (l : ℕ) (s : State) → (bind l s).1 ≡ bound → Binds l s
  Binds-bound l s h =
      let e : bind l s ≡ ((bind l s).0, bound) = ap (λ (a : BindAnswer). ((bind l s).0, a)) h in
      let up = L.listen-connects l s (bind l s).0 e in
      record {
        binds = e;
        listens = ap (λ (b : Bool). (listened l s, b)) (L.listen-bound l s (bind l s).0 e);
        there = L.bind-path_exists l s (bind l s).0 e;
        down = L.bind-connects l s (bind l s).0 e;
        up = up;
        stands = L.path_exists-connects (listened l s) up;
      }

  -- The file is removed and the path is bound again.
  abbrev renewed : ℕ → State → State
  renewed l s = listened l (remove_file s).0

  Binds-removed : (l : ℕ) (s : State) → path_exists s ≡ true → Binds l (remove_file s).0
  Binds-removed l s h = Binds-bound l (remove_file s).0 (W.bind-removed l s h)

  -- A bridge that starts alone at a stale socket holds the lock, and its socket can be reached; when
  -- it releases the lock, the socket file is gone, provided that dropping the listener leaves the
  -- file there.
  acquire_with_path-stale :
      (l : ℕ) (s : State)
      → IsStale K s
      → ((s : State) → path_exists s ≡ true → path_exists (drop_listener l s) ≡ true)
      → let r = acquire_with_path K l s in
        (r.1 ≡ holding)
        × (is_bridge_running_at K r.0 ≡ true)
        × (is_bridge_running_at K (release K l true r.0) ≡ false)
  unfolding acquire_with_path is_bridge_running_at release
  acquire_with_path-stale l s stale stays =
      let again = Binds-removed l s stale.there in
      let left = stays (renewed l s) again.stands in
      rw
        (
          L.bind-in_use l s stale.there,
          stale.dead,
          W.remove_file-path_exists s stale.there,
          again.binds,
          again.listens,
          again.up,
          again.stands,
          left,
          W.path_exists-removed (drop_listener l (renewed l s)) left,
        )
        (refl, refl, refl)

  -- Two bridges that start at a stale socket can both hold the lock: both find it stale before
  -- either removes it, and the second removes the socket on which the first already listens. The
  -- kernel does what it documents, and the socket file can be removed.
  pub stale_race :
      (i j : ℕ) (s : State)
      → i ≢ j
      → IsStale K s
      → let r = schedule K (i ∷ j ∷ i ∷ j ∷ i ∷ i ∷ i ∷ j ∷ j ∷ j ∷ []) s (λ _. trying) in
        (r.1 i ≡ holding) × (r.1 j ≡ holding)
  unfolding schedule
  stale_race i j s ne stale =
      let other : nat_beq i j ≡ false = ground (arith, ne) in
      let other' : nat_beq j i ≡ false = ground (arith, ne) in
      let first = Binds-removed i s stale.there in
      let second = Binds-removed j (renewed i s) first.stands in
      rw
        (
          nat_beq_refl i,
          nat_beq_refl j,
          other,
          other',
          L.bind-in_use i s stale.there,
          L.bind-in_use j s stale.there,
          stale.dead,
          W.remove_file-path_exists s stale.there,
          first.binds,
          first.listens,
          W.remove_file-path_exists (renewed i s) first.stands,
          second.binds,
          second.listens,
        )
        (refl, refl)

  -- Two bridges that start at a path that is free can both hold the lock: `UnixListener::bind` binds
  -- the socket and listens in two calls, and in between no connection can be made, so that the
  -- second takes the socket of the first for stale and removes it. The kernel does what it
  -- documents, and the socket file can be removed.
  pub starting_race :
      (i j : ℕ) (s : State)
      → i ≢ j
      → (bind i s).1 ≡ bound
      → let r = schedule K (i ∷ j ∷ j ∷ i ∷ j ∷ j ∷ j ∷ []) s (λ _. trying) in
        (r.1 i ≡ holding) × (r.1 j ≡ holding)
  unfolding schedule
  starting_race i j s ne free =
      let other : nat_beq i j ≡ false = ground (arith, ne) in
      let other' : nat_beq j i ≡ false = ground (arith, ne) in
      let first = Binds-bound i s free in
      let second = Binds-removed j (listened i s) first.stands in
      rw
        (
          nat_beq_refl i,
          nat_beq_refl j,
          other,
          other',
          first.binds,
          L.bind-in_use j (bind i s).0 first.there,
          first.down,
          first.listens,
          W.remove_file-path_exists (listened i s) first.stands,
          second.binds,
          second.listens,
        )
        (refl, refl)

  -- The two halves of `release` with another bridge between them: once the listener of `i` is
  -- dropped the socket is stale, so `j` can acquire the lock; `i` then removes the socket of `j`,
  -- and `k` acquires the lock beside `j`.
  release_race :
      (i j k : ℕ) (s : State)
      → IsStale K (drop_listener i s)
      → let taken = acquire_with_path K j (drop_listener i s) in
        (taken.1 ≡ holding)
        × (path_exists taken.0 ≡ true)
        × ((acquire_with_path K k (remove_file taken.0).0).1 ≡ holding)
  unfolding acquire_with_path
  release_race i j k s stale =
      let s1 = drop_listener i s in
      let again = Binds-removed j s1 stale.there in
      let third = Binds-removed k (renewed j s1) again.stands in
      rw
        (
          L.bind-in_use j s1 stale.there,
          stale.dead,
          W.remove_file-path_exists s1 stale.there,
          again.binds,
          again.listens,
          again.stands,
          third.binds,
          third.listens,
        )
        (refl, refl, refl)
