-- ===== src/PipeLock.antt =====
-- bridge/src/ipc_windows.rs: the named pipe that a bridge holds as a lock on Windows. What the
-- Win32 functions answer is an argument; the calls are recorded in their order.
pub mod Handles
use brp_spec.Base.{
  ℕ, String, Bool, true, false, not, if◌then◌else◌, List, [], ◌∷◌, ◌++◌, nat_eq, ◌==◌, ◌||◌, Result,
  ok, err,
}

-- A HANDLE: null, INVALID_HANDLE_VALUE (-1), or an open one.
pub data Handle : Type 0 where
  null invalid : Handle
  opened : ℕ → Handle

unfoldable pub is_valid_handle : Handle → Bool
is_valid_handle null = false
is_valid_handle invalid = false
is_valid_handle (opened h) = true

-- The calls that take or give back a resource, and the creation of the pipe, with the descriptor
-- that refers to the ACL or with the default one, and the handle that it answers.
pub data Call : Type 0 where
  open_token close_token make_acl free_acl : Call
  create_pipe : Bool → Handle → Call
  disconnect_pipe close_pipe : ℕ → Call

pub record WinAnswers : Type 0 where
  -- OpenProcessToken gives a token; GetTokenInformation a size, then the user
  pub token_opened : Bool
  pub size_known : Bool
  pub user_known : Bool
  -- SetEntriesInAclW gives an ACL
  pub acl_made : Bool
  -- InitializeSecurityDescriptor and SetSecurityDescriptorDacl
  pub sd_ready : Bool
  pub dacl_set : Bool
  -- CreateNamedPipeW, and GetLastError after it
  pub pipe : Handle
  pub last_error : ℕ

pub data PipeError : Type 0 where
  no_descriptor already_running : PipeError
  os_error : ℕ → PipeError

-- The calls made, and whether there is a descriptor restricted to the user.
unfoldable pub build_restricted_sd : WinAnswers → List Call × Bool
build_restricted_sd win =
    if not win.token_opened
    then ([], false)
    else if not win.size_known
    then (open_token ∷ close_token ∷ [], false)
    else if not win.user_known
    then (open_token ∷ close_token ∷ [], false)
    else if not win.acl_made
    then (open_token ∷ close_token ∷ [], false)
    else if not win.sd_ready
    then (open_token ∷ make_acl ∷ close_token ∷ free_acl ∷ [], false)
    else if not win.dacl_set
    then (open_token ∷ make_acl ∷ close_token ∷ free_acl ∷ [], false)
    else (open_token ∷ make_acl ∷ close_token ∷ free_acl ∷ [], true)

pub record PipeLock : Type 0 where
  pub handle : Handle

-- Without a descriptor the pipe gets the default one. The errors 5 and 231 say that the pipe is
-- another process's.
unfoldable pub acquire_with_name : WinAnswers → List Call × Result PipeLock PipeError
unfolding build_restricted_sd
acquire_with_name win =
    let (calls, use_dacl) = build_restricted_sd win in
    let r : Result PipeLock PipeError = elim win.pipe [
      | invalid ↦
          if win.last_error == 5 || win.last_error == 231
          then err already_running
          else err (os_error win.last_error)
      | handle ↦ ok (record { handle = handle })
    ] in
    (calls ++ (create_pipe use_dacl win.pipe ∷ []), r)

-- `release`; the drop calls it again.
unfoldable pub release : PipeLock → List Call × PipeLock
unfolding is_valid_handle
release lock = elim lock.handle [
  | opened h ↦ (disconnect_pipe h ∷ close_pipe h ∷ [], record { handle = null })
  | handle ↦ ([], lock)
]
