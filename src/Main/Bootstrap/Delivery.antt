-- ===== src/Main/Bootstrap/Delivery.antt =====
-- bridge/src/main.rs: what the bootstrap mode tells the extension, and what it leaves behind.
use brp_spec.Base.{
  ℕ, true, none, some, unwrap_or, List, [], ◌∷◌, ◌≡◌, ◌⊎◌, inl, inr, refl, Bool-cases, Option-cases,
  arith,
}
use brp_spec.Json.{SerdeJson}
use brp_spec.Config.{BridgeConfig}
use brp_spec.Lockfile.{LockData, LockCodec, Disk, read, acquire}
use brp_spec.Lockfile.Failure.{failed_acquire, released, answer-cases}
use brp_spec.Main.Bootstrap.{
  BootstrapWorld, token_msg, forward_existing, deliver_token, run_bootstrap,
}

module _ (J : SerdeJson) (codec : LockCodec) where
  open J use {Value}

  own : BootstrapWorld → BridgeConfig → ℕ → LockData
  own world config port = record { pid = world.pid; port = port; token = some config.auth_token }

  deliver_token-leaves :
      (world : BootstrapWorld) (config : BridgeConfig) (port : ℕ) (disk : Disk)
      → world.at_release.removed ≡ true
      → let left = (deliver_token J codec world config port disk).disk.lockfile in
        (left ≡ none) ⊎ (left ≡ disk.lockfile)
  unfolding deliver_token own
  deliver_token-leaves world config port disk removed =
      let r = acquire codec world.is_pid_alive (own world config port) world.at_acquire disk in
      elim (answer-cases r) [
        | inl (tt, t) ↦
            rw (deliver_token, t) (inl (released world.at_release (world.meantime r.0) removed))
        | inr (e, t) ↦
            rw (deliver_token, t)
              (failed_acquire codec world.is_pid_alive (own world config port) world.at_acquire disk
                r.0 e t)
      ]

  -- However the mode ends, it leaves no lockfile of its own: there is none, or the lockfile is the
  -- one that it found, where the call that removes the lockfile succeeds.
  pub run_bootstrap-leaves :
      (world : BootstrapWorld) (config : BridgeConfig) (disk : Disk)
      → world.at_release.removed ≡ true
      → let left = (run_bootstrap J codec world config disk).disk.lockfile in
        (left ≡ none) ⊎ (left ≡ disk.lockfile)
  unfolding run_bootstrap forward_existing
  run_bootstrap-leaves world config disk removed = elim (Bool-cases world.ipc_lock) [
    | inr f ↦ ground (arith, f, Option-cases (read codec world.at_read disk))
    | inl t ↦ elim (Option-cases world.port) [
      | inl e ↦ rw (run_bootstrap, t, e) (inr refl)
      | inr (port, e) ↦
          rw (run_bootstrap, t, e) (deliver_token-leaves world config port disk removed)
    ]
  ]

  -- The data of a lockfile that was found, of a process that is alive.
  abbrev pub IsFound : BootstrapWorld → Disk → LockData → Type 0
  IsFound world disk d =
      (read codec world.at_read disk ≡ some d) × (world.is_pid_alive d.pid ≡ true)

  -- The data of the process itself, with its token and a port on which it listens, that it has
  -- just put in the lockfile.
  abbrev pub IsOwn : BootstrapWorld → BridgeConfig → Disk → LockData → Type 0
  IsOwn world config disk d =
      (d.pid ≡ world.pid)
      × (world.port ≡ some d.port)
      × (d.token ≡ some config.auth_token)
      × ((acquire codec world.is_pid_alive d world.at_acquire disk).0.lockfile
          ≡ some (codec.to_vec d))

  abbrev pub Announces : LockData → List Value → Type 0
  Announces d out = out ≡ token_msg J d.port (unwrap_or d.token "") ∷ []

  -- What may be sent.
  abbrev pub IsFounded : BootstrapWorld → BridgeConfig → Disk → List Value → Type 0
  IsFounded world config disk out =
      (out ≡ [])
      ⊎ ((d : LockData) × Announces d out × (IsFound world disk d ⊎ IsOwn world config disk d))
