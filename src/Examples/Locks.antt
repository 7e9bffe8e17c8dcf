-- ===== src/Examples/Locks.antt =====
-- The locks between processes at concrete inputs: a kernel with one path, and Win32 answers.
use brp_spec.Base.{
  ℕ, Bool, true, false, some, List, [], ◌∷◌, ◌≡◌, ◌≢◌, refl, nat_eq, ◌==◌, if◌then◌else◌, arith,
  ==_refl, subst, ap,
}
use brp_spec.SocketLock.{Sockets, SocketLaws, BindAnswer, bound, in_use, trying, holding, schedule}
use brp_spec.SocketLock.Stale.{WritableLaws, IsStale, stale_race, starting_race}
use brp_spec.PipeLock.{opened, WinAnswers}
use brp_spec.PipeLock.Handles.{nothing, after_calls, whole_life, whole_life-balanced}

-- A path: nothing, a socket on which nobody listens any more, or that of a bridge, which does not
-- listen yet or does.
data PathState : Type 0 where
  absent dead : PathState
  fresh live : ℕ → PathState

abbrev bind : ℕ → PathState → PathState × BindAnswer
bind l absent = (fresh l, bound)
bind l s = (s, in_use)

-- A socket whose path is gone listens all the same.
abbrev listen : ℕ → PathState → PathState × Bool
listen l (fresh k) = (if k == l then live l else fresh k, true)
listen l s = (s, true)

abbrev connects : PathState → Bool
connects (live l) = true
connects _ = false

abbrev path_exists : PathState → Bool
path_exists absent = false
path_exists _ = true

abbrev unlink : PathState → PathState × Bool
unlink absent = (absent, false)
unlink _ = (absent, true)

abbrev drop_listener : ℕ → PathState → PathState
drop_listener l (fresh k) = if k == l then dead else fresh k
drop_listener l (live k) = if k == l then dead else live k
drop_listener l s = s

abbrev kernel : Sockets
kernel = record {
  State = PathState;
  bind = bind;
  listen = listen;
  connects = connects;
  path_exists = path_exists;
  remove_file = unlink;
  drop_listener = drop_listener;
}

bind-in_use : (l : ℕ) (s : PathState) → path_exists s ≡ true → bind l s ≡ (s, in_use)
bind-in_use l absent h = cc
bind-in_use l dead h = refl
bind-in_use l (fresh k) h = refl
bind-in_use l (live k) h = refl

bind-fresh : (l : ℕ) (s s' : PathState) → bind l s ≡ (s', bound) → fresh l ≡ s'
bind-fresh l absent s' h = cc
bind-fresh l dead s' h = cc
bind-fresh l (fresh k) s' h = cc
bind-fresh l (live k) s' h = cc

listen-fresh : (l : ℕ) → listen l (fresh l) ≡ (live l, true)
listen-fresh l = rw (==_refl l) refl

path_exists-connects : (s : PathState) → connects s ≡ true → path_exists s ≡ true
path_exists-connects absent h = cc
path_exists-connects dead h = refl
path_exists-connects (fresh k) h = refl
path_exists-connects (live k) h = refl

kernel_laws : SocketLaws kernel
kernel_laws = record {
  bind-in_use = bind-in_use;
  bind-path_exists = λ l s s' h. subst (λ s. path_exists s ≡ true) (bind-fresh l s s' h) refl;
  bind-connects = λ l s s' h. subst (λ s. connects s ≡ false) (bind-fresh l s s' h) refl;
  listen-bound = λ l s s' h.
      subst (λ s. (listen l s).1 ≡ true) (bind-fresh l s s' h) (ap (λ r. r.1) (listen-fresh l));
  listen-connects = λ l s s' h.
      subst (λ s. connects (listen l s).0 ≡ true) (bind-fresh l s s' h)
        (ap (λ r. connects r.0) (listen-fresh l));
  path_exists-connects = path_exists-connects;
}

remove_file-path_exists : (s : PathState) → path_exists s ≡ true → (unlink s).1 ≡ true
remove_file-path_exists absent h = cc
remove_file-path_exists dead h = refl
remove_file-path_exists (fresh k) h = refl
remove_file-path_exists (live k) h = refl

path_exists-removed : (s : PathState) → path_exists s ≡ true → path_exists (unlink s).0 ≡ false
path_exists-removed absent h = refl
path_exists-removed dead h = refl
path_exists-removed (fresh k) h = refl
path_exists-removed (live k) h = refl

bind-removed : (l : ℕ) (s : PathState) → path_exists s ≡ true → (bind l (unlink s).0).1 ≡ bound
bind-removed l absent h = refl
bind-removed l dead h = refl
bind-removed l (fresh k) h = refl
bind-removed l (live k) h = refl

writable : WritableLaws kernel
writable = record {
  remove_file-path_exists = remove_file-path_exists;
  path_exists-removed = path_exists-removed;
  bind-removed = bind-removed;
}

dead-IsStale : IsStale kernel dead
dead-IsStale = record { there = refl; dead = refl }

abbrev starters : List ℕ
starters = 5 ∷ 3 ∷ 3 ∷ 5 ∷ 3 ∷ []

three_ne : ◌≢◌ {A = ℕ} 3 5
three_ne = omega arith

stale_race_example :
    ((schedule kernel (3 ∷ 5 ∷ 3 ∷ 5 ∷ 3 ∷ 3 ∷ 3 ∷ 5 ∷ 5 ∷ 5 ∷ []) dead (λ _. trying)).1 3
      ≡ holding)
    × ((schedule kernel (3 ∷ 5 ∷ 3 ∷ 5 ∷ 3 ∷ 3 ∷ 3 ∷ 5 ∷ 5 ∷ 5 ∷ []) dead (λ _. trying)).1 5
        ≡ holding)
stale_race_example = stale_race kernel kernel_laws writable 3 5 dead three_ne dead-IsStale

starting_race_example :
    let r = schedule kernel (3 ∷ 5 ∷ 5 ∷ 3 ∷ 5 ∷ 5 ∷ 5 ∷ []) absent (λ _. trying) in
    (r.1 3 ≡ holding) × (r.1 5 ≡ holding)
starting_race_example = starting_race kernel kernel_laws writable 3 5 absent three_ne refl

abbrev win : WinAnswers
win = record {
  token_opened = true;
  size_known = true;
  user_known = true;
  acl_made = true;
  sd_ready = true;
  dacl_set = true;
  pipe = opened 44;
  last_error = 0;
}

whole_life-balanced_example : after_calls (whole_life win) nothing ≡ some nothing
whole_life-balanced_example = whole_life-balanced win
