-- ===== src/PipeLock/Handles.antt =====
-- bridge/src/ipc_windows.rs: handles and memory are given back once.
use brp_spec.Base.{
  and_then, Option, none, some, nat_eq, ◌==◌, ℕ, Bool, true, false, if◌then◌else◌, List, [], ◌∷◌,
  ◌++◌, ◌≡◌, ok, err, arith,
}
use brp_spec.PipeLock.{
  Handle, null, opened, Call, open_token, close_token, make_acl, free_acl, create_pipe,
  disconnect_pipe, close_pipe, WinAnswers, acquire_with_name, release, is_valid_handle,
}

-- What the process owns.
pub record Owned : Type 0 where
  pub token : Bool
  pub acl : Bool
  pub pipe : Handle

abbrev pub nothing : Owned
nothing = record { token = false; acl = false; pipe = null }

abbrev pub holds : Handle → ℕ → Bool
holds (opened h) k = h == k
holds _ k = false

-- A call on what the process owns; `none` where it takes a resource that would be lost, or gives
-- back one that the process does not own.
abbrev pub after_call : Call → Owned → Option Owned
after_call open_token o = if o.token then none else some (record o { token = true })
after_call close_token o = if o.token then some (record o { token = false }) else none
after_call make_acl o = if o.acl then none else some (record o { acl = true })
after_call free_acl o = if o.acl then some (record o { acl = false }) else none
after_call (create_pipe use_dacl (opened h)) o =
    if is_valid_handle o.pipe then none else some (record o { pipe = opened h })
after_call (create_pipe use_dacl handle) o = some o
after_call (disconnect_pipe h) o = if holds o.pipe h then some o else none
after_call (close_pipe h) o = if holds o.pipe h then some (record o { pipe = null }) else none

abbrev pub after_calls : List Call → Owned → Option Owned
after_calls [] o = some o
after_calls (call ∷ calls) o = and_then (after_call call o) λ o'. after_calls calls o'

-- An acquired lock is released, and released again when it is dropped.
unfoldable pub whole_life : WinAnswers → List Call
unfolding acquire_with_name release
whole_life win =
    let (calls, r) = acquire_with_name win in
    elim r [
      | err e ↦ calls
      | ok lock ↦
          let (given_back, lock') = release lock in calls ++ (given_back ++ (release lock').0)
    ]

-- Whatever the Win32 functions answer, a lock that is acquired, released and dropped, or that cannot
-- be acquired, gives back the token, the ACL and the pipe that it took, each exactly once.
pub whole_life-balanced : (win : WinAnswers) → after_calls (whole_life win) nothing ≡ some nothing
unfolding whole_life
whole_life-balanced win = ground arith
