-- ===== src/Mode.antt =====
-- bridge/src/mode.rs: the operating mode, from the command line.
pub mod Echo
use brp_spec.Base.{
  String, Bool, not, List, [], ◌∷◌, string_eq, ◌==◌, ◌||◌, if◌then◌else◌, starts_with, Result, ok,
  err,
}

pub data BridgeMode : Type 0 where
  bridge bootstrap echo : BridgeMode

-- How the program ends instead: the usage text, or a refused argument. Without even a program
-- name the slice `args[1..]` panics.
pub data Exit : Type 0 where
  usage : Exit
  unknown_mode unknown_argument : String → Exit
  panicked : Exit

-- A later `--mode` or positional argument does not override `--echo`.
unfoldable pub unless_echo : BridgeMode → BridgeMode → BridgeMode
unless_echo echo mode = echo
unless_echo _ mode = mode

-- The arms of the match, in order.
unfoldable pub apply_arg : BridgeMode → String → Result BridgeMode Exit
unfolding unless_echo
apply_arg mode arg =
    if arg == "--help" || arg == "-h"
    then err usage
    else if arg == "--echo"
    then ok echo
    else if arg == "--mode=bridge"
    then ok (unless_echo mode bridge)
    else if arg == "--mode=bootstrap"
    then ok (unless_echo mode bootstrap)
    else if starts_with arg "--mode="
    then err (unknown_mode arg)
    else if not (starts_with arg "-")
    then ok (unless_echo mode bootstrap)
    else err (unknown_argument arg)

unfoldable pub parse_args : BridgeMode → List String → Result BridgeMode Exit
unfolding apply_arg
parse_args mode [] = ok mode
parse_args mode (arg ∷ args) = elim (apply_arg mode arg) [
  | err e ↦ err e
  | ok mode' ↦ parse_args mode' args
]

-- The first argument is the program's name.
unfoldable pub parse_mode : List String → Result BridgeMode Exit
unfolding parse_args
parse_mode [] = err panicked
parse_mode (program ∷ args) = parse_args bridge args
