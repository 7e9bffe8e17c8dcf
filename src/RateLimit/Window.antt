-- ===== src/RateLimit/Window.antt =====
-- bridge/src/ratelimit.rs: the limiter against the times at which it let connections in.
use brp_spec.Base.{
  ℕ, ◌+◌, ◌-◌, ◌≤◌, ◌<◌, String, ◌≡◌, ◌↔◌, refl, ◌∙◌, Bool, true, List, [], ◌∷◌, ◌++◌, arith,
  Bool-cases, ltb, leb, ◌&&◌, keep_if, length, if◌then◌else◌, ok, err, inl, inr,
}
use brp_spec.RateLimit.{
  RateLimiter, new, prune, one_second, check_connection, on_authenticated, on_auth_failed,
  max_connections_per_second, max_unauthenticated_connections,
}

-- How many entries pass a test.
unfoldable pub count : (ℕ → Bool) → List ℕ → ℕ
count p xs = length (keep_if p xs)

-- From `w` on, for less than a second.
abbrev pub within : ℕ → ℕ → Bool
within w t = leb w t && ltb t (w + one_second)

-- Less than a second before `now`.
abbrev pub recent_at : ℕ → ℕ → Bool
recent_at now t = ltb (now - t) one_second

-- The limiter, the latest instant and the times of the accepted connections, newest first, after
-- a history in which the clock never goes back.
pub data History : RateLimiter → ℕ → List ℕ → Type 0 where
  start : History new 0 []
  accepts :
      {l l' : RateLimiter} {clock : ℕ} {accepted : List ℕ} (now : ℕ)
      → History l clock accepted
      → clock ≤ now
      → check_connection l now ≡ (l', ok tt)
      → History l' now (now ∷ accepted)
  refuses :
      {l l' : RateLimiter} {clock : ℕ} {accepted : List ℕ} (now : ℕ) (reason : String)
      → History l clock accepted
      → clock ≤ now
      → check_connection l now ≡ (l', err reason)
      → History l' now accepted
  authenticates :
      {l : RateLimiter} {clock : ℕ} {accepted : List ℕ}
      → History l clock accepted
      → History (on_authenticated l) clock accepted
  fails :
      {l : RateLimiter} {clock : ℕ} {accepted : List ℕ}
      → History l clock accepted
      → History (on_auth_failed l) clock accepted

count_mono :
    (p q : ℕ → Bool) (xs : List ℕ) → ((t : ℕ) → p t ≡ true → q t ≡ true) → count p xs ≤ count q xs
unfolding count
count_mono p q [] h = omega arith
count_mono p q (t ∷ xs) h = ground (arith, h t, count_mono p q xs h)

count-prune :
    (now later : ℕ) (xs : List ℕ)
    → now ≤ later
    → count (recent_at later) (prune now xs) ≡ count (recent_at later) xs
unfolding count
count-prune now later [] h = refl
count-prune now later (t ∷ xs) h = ground (arith, count-prune now later xs h)

count-append :
    (p : ℕ → Bool) (xs : List ℕ) (t : ℕ)
    → count p (xs ++ t ∷ []) ≡ count p xs + (if p t then 1 else 0)
unfolding count
count-append p [] t = ground arith
count-append p (x ∷ xs) t = ground (arith, count-append p xs t)

count-cons :
    (p : ℕ → Bool) (xs : List ℕ) (t : ℕ) → count p (t ∷ xs) ≡ count p xs + (if p t then 1 else 0)
unfolding count
count-cons p xs t = ground arith

-- What the limiter remembers is what was let in during the last second.
pub record IsFaithful (l : RateLimiter) (clock : ℕ) (accepted : List ℕ) : Type 0 where
  pub remembers :
      (now : ℕ)
      → clock ≤ now
      → count (recent_at now) l.recent_connections ≡ count (recent_at now) accepted
  pub few : (w : ℕ) → count (within w) accepted ≤ max_connections_per_second
  pub slots : l.unauthenticated_count ≤ max_unauthenticated_connections

check_ok :
    (l l' : RateLimiter) (now : ℕ)
    → check_connection l now ≡ (l', ok tt)
    → (count (recent_at now) l.recent_connections < max_connections_per_second)
      × (l.unauthenticated_count < max_unauthenticated_connections)
      × (l' ≡ record {
        recent_connections = prune now l.recent_connections ++ now ∷ [];
        unauthenticated_count = l.unauthenticated_count + 1;
      })
unfolding check_connection count
check_ok l l' now h = (ground arith, ground arith, ground arith)

check_err :
    (l l' : RateLimiter) (now : ℕ) (reason : String)
    → check_connection l now ≡ (l', err reason)
    → l' ≡ record l { recent_connections = prune now l.recent_connections }
unfolding check_connection
check_err l l' now reason h = ground arith

start-IsFaithful : IsFaithful new 0 []
unfolding new count
start-IsFaithful = record { remembers = λ now h. refl; few = λ w. omega arith; slots = omega arith }

-- A window that holds `now` holds nothing older than a second before it.
few_after :
    (now : ℕ) (accepted : List ℕ)
    → count (recent_at now) accepted < max_connections_per_second
    → ((w : ℕ) → count (within w) accepted ≤ max_connections_per_second)
    → (w : ℕ) → count (within w) (now ∷ accepted) ≤ max_connections_per_second
few_after now accepted room few w = elim (Bool-cases (within w now)) [
  | inl inside ↦
      let older : count (within w) accepted ≤ count (recent_at now) accepted =
        count_mono (within w) (recent_at now) accepted (λ t h. ground arith) in
      ground (arith, count-cons (within w) accepted now)
  | inr outside ↦ ground (arith, count-cons (within w) accepted now, few w)
]

accept-IsFaithful :
    (l l' : RateLimiter) (clock now : ℕ) (accepted : List ℕ)
    → clock ≤ now
    → check_connection l now ≡ (l', ok tt)
    → IsFaithful l clock accepted
    → IsFaithful l' now (now ∷ accepted)
accept-IsFaithful l l' clock now accepted later h v =
    let (room, slot, e) = check_ok l l' now h in
    rw e (record {
      remembers = λ at k. omega (
        arith,
        count-append (recent_at at) (prune now l.recent_connections) now,
        count-prune now at l.recent_connections k,
        count-cons (recent_at at) accepted now,
        v.remembers at (omega arith),
      );
      few = few_after now accepted (omega (arith, v.remembers now later)) v.few;
      slots = omega arith;
    })

refuse-IsFaithful :
    (l l' : RateLimiter) (clock now : ℕ) (reason : String) (accepted : List ℕ)
    → clock ≤ now
    → check_connection l now ≡ (l', err reason)
    → IsFaithful l clock accepted
    → IsFaithful l' now accepted
refuse-IsFaithful l l' clock now reason accepted later h v =
    rw (check_err l l' now reason h) (record {
      remembers = λ at k. count-prune now at l.recent_connections k ∙ v.remembers at (omega arith);
      few = v.few;
      slots = v.slots;
    })

pub History-IsFaithful :
    {l : RateLimiter} {clock : ℕ} {accepted : List ℕ}
    → History l clock accepted
    → IsFaithful l clock accepted
unfolding on_authenticated on_auth_failed
History-IsFaithful start = start-IsFaithful
History-IsFaithful (accepts {l = l} {l' = l'} {clock = c} {accepted = acc} now h later e) =
    accept-IsFaithful l l' c now acc later e (History-IsFaithful h)
History-IsFaithful (refuses {l = l} {l' = l'} {clock = c} {accepted = acc} now reason h later e) =
    refuse-IsFaithful l l' c now reason acc later e (History-IsFaithful h)
History-IsFaithful (authenticates h) =
    let v = History-IsFaithful h in
    record { remembers = v.remembers; few = v.few; slots = omega (arith, v.slots) }
History-IsFaithful (fails h) =
    let v = History-IsFaithful h in
    record { remembers = v.remembers; few = v.few; slots = omega (arith, v.slots) }

-- After any history of attempts, accepted or refused, and of authentications and failures in which
-- the clock never goes back, no second, wherever it starts, holds more than ten accepted
-- connections.
pub window_bound :
    {l : RateLimiter} {clock : ℕ} {accepted : List ℕ} (w : ℕ)
    → History l clock accepted
    → count (within w) accepted ≤ max_connections_per_second
window_bound w h = (History-IsFaithful h).few w

check_lets_in :
    (l : RateLimiter) (now : ℕ)
    → count (recent_at now) l.recent_connections < max_connections_per_second
    → l.unauthenticated_count < max_unauthenticated_connections
    → (check_connection l now).1 ≡ ok tt
unfolding check_connection count
check_lets_in l now h k = ground arith

check_refuses :
    (l : RateLimiter) (now : ℕ)
    → (check_connection l now).1 ≡ ok tt
    → (count (recent_at now) l.recent_connections < max_connections_per_second)
      × (l.unauthenticated_count < max_unauthenticated_connections)
unfolding check_connection count
check_refuses l now h = (ground arith, ground arith)

-- A connection is let in exactly when fewer than ten were let in during the last second and fewer
-- than five are unauthenticated: refused attempts never count.
check_connection_iff :
    {l : RateLimiter} {clock : ℕ} {accepted : List ℕ} (now : ℕ)
    → History l clock accepted
    → clock ≤ now
    → ((check_connection l now).1 ≡ ok tt) ↔ (
        (count (recent_at now) accepted < max_connections_per_second)
        × (l.unauthenticated_count < max_unauthenticated_connections))
check_connection_iff {l} {clock} {accepted} now h later =
    let same = (History-IsFaithful h).remembers now later in
    (
      λ e. let (few, slot) = check_refuses l now e in (omega arith, slot),
      λ p. check_lets_in l now (omega arith) p.1,
    )
