-- ===== src/Main/Bridge/Port.antt =====
-- bridge/src/main.rs: the port that the bridge mode advertises, and the lockfile that it leaves.
use brp_spec.Base.{
  ℕ, String, true, false, Option, none, some, List, Result, ok, err, ends_with, split, ◌≡◌, ◌≢◌,
  ◌⊎◌, inl, inr, refl, sym, subst, Bool, Bool-cases, Option-cases, arith, ◌<◌,
}
use brp_spec.Base.U32.{parse_u32}
use brp_spec.Json.{SerdeJson}
use brp_spec.Auth.{ConstantTimeEq}
use brp_spec.Message.{Codec}
use brp_spec.Config.{BridgeConfig}
use brp_spec.Lockfile.{LockCodec, Disk, acquire}
use brp_spec.Lockfile.Exclusion.{acquired}
use brp_spec.Lockfile.Failure.{failed_acquire, released, answer-cases}
use brp_spec.Main.Requests.{Round, Progress}
use brp_spec.Main.Bridge.{
  BridgeWorld, BridgeEnd, Server, own_lock, start_server, random_server, fixed_server, start,
  run_bridge, port_of, fixed_port, last_part, bind_failed, run_ws_server,
}

pub fixed_port-lt : (ws_addr : String) → fixed_port ws_addr < 65536
unfolding fixed_port port_of
fixed_port-lt ws_addr = elim (Option-cases (parse_u32 (last_part (split b':' ws_addr)))) [
  | inl e ↦ rw (fixed_port, e) (omega arith)
  | inr (n, e) ↦ ground (arith, e)
]

-- What is documented of binding a text: it must end in a port, and if that is not 0, the listener
-- listens on it.
pub record BindLaws (bind : String → Option ℕ) : Type 0 where
  pub bind-no_port : (addr : String) → port_of addr ≡ none → bind addr ≡ none
  pub bind-port :
      (addr : String) (p q : ℕ) → port_of addr ≡ some p → p ≢ 0 → bind addr ≡ some q → q ≡ p

abbrev pub is_random : BridgeConfig → Bool
is_random config = ends_with config.ws_addr ":0"

module _ (J : SerdeJson) (lock_codec : LockCodec) where
  open J use {Value}

  -- The listener was bound before, or the address has a fixed port and the text is bound now.
  abbrev pub Listens : BridgeWorld → BridgeConfig → Server Value → Type 0
  Listens world config server =
      ((is_random config ≡ true) × (server.listening ≡ some server.advertised))
      ⊎ ((is_random config ≡ false)
          × (server.advertised ≡ fixed_port config.ws_addr)
          × (server.listening ≡ world.bind config.ws_addr))

  -- A server that was started: the lockfile holds its data.
  pub record IsAdvertised (world : BridgeWorld) (config : BridgeConfig) (disk : Disk)
      (server : Server Value) : Type 0 where
    pub lockfile :
        disk.lockfile
        ≡ some (lock_codec.to_vec (own_lock J lock_codec world config server.advertised))
    pub listens : Listens world config server

  -- Refused: the lockfile is as it was, or a stale or corrupt one is gone.
  abbrev pub IsStarted :
      BridgeWorld → BridgeConfig → Disk → Disk × Result (Server Value) BridgeEnd → Type 0
  IsStarted world config disk (disk', ok server) = IsAdvertised world config disk' server
  IsStarted world config disk (disk', err e) =
      (disk'.lockfile ≡ none) ⊎ (disk'.lockfile ≡ disk.lockfile)

  start_server-IsStarted :
      (world : BridgeWorld) (config : BridgeConfig) (server : Server Value) (disk : Disk)
      → Listens world config server
      → IsStarted world config disk (start_server J lock_codec world config server disk)
  unfolding start_server
  start_server-IsStarted world config server disk listens =
      let mine = own_lock J lock_codec world config server.advertised in
      let r = acquire lock_codec world.is_pid_alive mine world.at_acquire disk in
      elim (answer-cases r) [
        | inr (e, t) ↦
            rw (start_server, t)
              (failed_acquire lock_codec world.is_pid_alive mine world.at_acquire disk r.0 e t)
        | inl (tt, t) ↦
            rw (start_server, t)
              (record {
                lockfile = acquired lock_codec world.is_pid_alive mine world.at_acquire disk r.0 t;
                listens = listens;
              })
      ]

  -- Without anything known of the bind.
  pub start-IsStarted :
      (world : BridgeWorld) (config : BridgeConfig) (disk : Disk)
      → IsStarted world config disk (start J lock_codec world config disk)
  unfolding start random_server fixed_server run_ws_server
  start-IsStarted world config disk = elim (Bool-cases (is_random config)) [
    | inl random ↦ elim (Option-cases (world.bind config.ws_addr)) [
      | inl e ↦
          let same : start J lock_codec world config disk ≡ (disk, err bind_failed) =
            rw (start, random, e) refl in
          subst (IsStarted world config disk) (sym same) (inr refl)
      | inr (port, e) ↦
          let server = random_server J lock_codec world config port in
          let same : start J lock_codec world config disk
              ≡ start_server J lock_codec world config server disk =
            rw (start, random, e) refl in
          subst (IsStarted world config disk) (sym same)
            (start_server-IsStarted world config server disk (inl (random, refl)))
    ]
    | inr fixed ↦
        let server = fixed_server J lock_codec world config in
        let same : start J lock_codec world config disk
            ≡ start_server J lock_codec world config server disk =
          rw (start, fixed) refl in
        subst (IsStarted world config disk) (sym same)
          (start_server-IsStarted world config server disk (inr (fixed, refl, refl)))
  ]

  -- Where a server that was started listens: on the port in the lockfile; or nowhere, where a fixed
  -- address cannot be bound; or, where the text ends in a port that is 0 but not in ":0", wherever
  -- it was bound, while the lockfile says 0.
  abbrev pub IsReachable : BridgeWorld → BridgeConfig → Server Value → Type 0
  IsReachable world config server =
      (server.listening ≡ some server.advertised)
      ⊎ (((is_random config ≡ false)
            × (world.bind config.ws_addr ≡ none)
            × (server.listening ≡ none))
          ⊎ ((is_random config ≡ false)
              × (port_of config.ws_addr ≡ some 0)
              × (server.advertised ≡ 0)
              × (server.listening ≡ world.bind config.ws_addr)))

  abbrev pub IsServed :
      BridgeWorld → BridgeConfig → Disk → Disk × Result (Server Value) BridgeEnd → Type 0
  IsServed world config disk (disk', ok server) =
      (disk'.lockfile
        ≡ some (lock_codec.to_vec (own_lock J lock_codec world config server.advertised)))
      × IsReachable world config server
  IsServed world config disk (disk', err e) =
      (disk'.lockfile ≡ none) ⊎ (disk'.lockfile ≡ disk.lockfile)

  -- Whether the server could not be started, runs alone or has served its requests: when the mode
  -- ends there is no lockfile, or the one that it found, where the call that removes it succeeds.
  pub run_bridge-leaves :
      {S : Type 0} (codec : Codec J) (c : ConstantTimeEq) (world : BridgeWorld)
      (config : BridgeConfig) (w : Progress S) (rounds : List (Round S Value)) (disk : Disk)
      → world.at_release.removed ≡ true
      → let left = (run_bridge J lock_codec codec c world config w rounds disk).disk.lockfile in
        (left ≡ none) ⊎ (left ≡ disk.lockfile)
  unfolding run_bridge
  run_bridge-leaves codec c world config w rounds disk removed =
      let r = start J lock_codec world config disk in
      let started = start-IsStarted world config disk in
      elim (answer-cases r) [
        | inr (e, t) ↦ rw (run_bridge, t) (subst (IsStarted world config disk) t started)
        | inl (server, t) ↦ elim (Bool-cases config.standalone) [
          | inl alone ↦
              rw (run_bridge, t, alone)
                (inl (released world.at_release (world.meantime r.0) removed))
          | inr stdin ↦
              rw (run_bridge, t, stdin)
                (inl (released world.at_release (world.meantime r.0) removed))
        ]
      ]
