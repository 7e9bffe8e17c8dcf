-- ===== src/Lib.antt =====
-- The BRP bridge: a local server that lets AI clients drive browser extensions.
--
-- Clients and extensions connect by WebSocket (bridge/src/ws_server.rs), or a client by native
-- messages on stdin. A connection passes the rate limiter, the Origin test, the tests on its first
-- message and the token check; then it is a client or an extension. A client's request goes to the
-- router, which answers it itself or, after its checks, forwards it under a number of its own to
-- one extension and waits for the answer with that number. The state (session, extensions, pending
-- requests, counter) stands behind one lock and is shared by all tasks.
--
-- The files:
--   Base         lists, Boolean tests, texts, a map, 32-bit numbers and their decimal texts
--   Json         the crate serde_json, as an interface
--   Session      bridge/src/protocol/session.rs: Version (negotiate_version, parse_semver),
--                Negotiation (Capabilities), the session's calls; Grants and Lifecycle prove
--   Message      bridge/src/protocol/message.rs: messages and constructors; serde's derived coding
--                is the interface Codec
--   Auth         bridge/src/auth.rs: limits, whitelist, Origin test, depth test, secure_compare;
--                Compare and Depth prove
--   RateLimit    bridge/src/ratelimit.rs; Window proves
--   Tokens       bridge/src/token_manager.rs; Validity and Persistence prove
--   Router       bridge/src/router.rs: State (BridgeState), Gate (the checks of the last arm),
--                TokenCalls (replies of the token methods), Forward (forward_to_extension), Handle
--                (handle_request); Admission, Coverage, Replies, Categories and Patience prove
--   WsServer     bridge/src/ws_server.rs: Admit (from the handshake to the first message), Accept
--                (run_accept_loop), Connection (handle_ws_connection), Extension
--                (handle_ext_messages and the cleanup), Client (handle_client_messages); Slots,
--                Handshakes, Gate, Delivery, Disconnect, Numbers and Turns prove
--   Mode         bridge/src/mode.rs; Echo proves
--   Config       bridge/src/config.rs; Load proves
--   Lockfile     bridge/src/lockfile.rs; Steps has acquire call by call; Exclusion, Failure, Alone,
--                Interleaved and Race prove
--   SocketLock   bridge/src/ipc_unix.rs; Excluded and Stale prove
--   PipeLock     bridge/src/ipc_windows.rs; Handles proves
--   Native       bridge/src/transport/native.rs and bridge/src/native_msg.rs; Framing, Stdin
--                and Stream prove
--   Exchange     what the router and the server promise for forwarded requests: an abstract book of
--                calls and a log of replies; Once, Runs, Pending, Refines and Channels prove
--                that the bridge keeps it
--   Main         bridge/src/main.rs: Echo (run_echo), Bootstrap (run_bootstrap), Bridge (run_bridge,
--                and run_ws_server of bridge/src/ws_server.rs), Requests (the main request loop);
--                Dispatch (main); Ends, Delivery, Port, Answers and Discovery prove
--   LogSanitizer bridge/src/log_sanitizer.rs, over the crate regex as an interface
--   Spike        spikes/b1-ipc-spike/src/main.rs: Discovery (discover_live_instances), Bridge
--                (run_bridge), Bootstrap (run_bootstrap), StaleTest (run_stale_test); Clock, Files,
--                Started, Delivery, Cleanup and Modes, Discovery's Sorted, Loop, Found and Relisted,
--                and StaleTest's Outcome prove
--   Examples     the theorems at concrete inputs, over a small JSON type
--
-- How the code is modelled. A HashMap is an association list with one entry for a key; where the
-- code takes the first entry in iteration order, the position is an argument (`pick`). A HashSet is
-- a list without repeats. An i64 is its 64-bit pattern, and counters wrap as in a release build. A
-- sender is an opaque handle, a oneshot channel is a number. UUIDs, the clock, and what the disk,
-- the network and other processes answer are arguments. Each section under the lock is one step;
-- what other tasks do to the state between two sections of one task is an argument
-- (`Others.between_checks` and the like, and the functions beside the frames of a connection). A
-- connection changes the rate limiter once when it arrives and once when its handshake ends, and
-- other connections may do so in between. The loops over frames, messages and arguments recurse on
-- the list of what arrives; `validate_json_depth` recurses on the depth that is left. Fuel is used
-- in the decimal text of a number, which divides by ten at most as often as the number is large,
-- and in the loops that read native messages, each of which takes four bytes at least, so that one
-- more than the length of the input is enough, and where a prefix of a text is taken away as often
-- as it stands there, each time a character at least. A call on the Unix socket or on the lockfile
-- is one step, and the steps of several bridges interleave in a schedule (elsewhere acquire of the
-- lockfile is one step, which is what its calls amount to with nobody between them); the Win32 calls
-- of the pipe are recorded in order. Serialising a response does not fail.
--
-- The experiment with IPC (Spike) has a directory of lockfiles as a list of entries with names and
-- contents, and socket files as a list of paths; whether a call on a file succeeds is asked by the
-- file's name. Nobody else changes the directory during a discovery. Where the program panics is a
-- value. Texts are compared by code points, as the bytes of UTF-8 are.
--
-- Not modelled: logs and their set-up, permissions of files other than the token file, what the
-- patterns of bridge/src/log_sanitizer.rs match (the crate regex does that), the extension and the
-- adapter.
pub mod Base
pub mod Json
pub mod Session
pub mod Auth
pub mod RateLimit
pub mod Tokens
pub mod Message
pub mod Router
pub mod WsServer
pub mod Mode
pub mod Config
pub mod Lockfile
pub mod SocketLock
pub mod PipeLock
pub mod Native
pub mod Exchange
pub mod Main
pub mod LogSanitizer
pub mod Spike
pub mod Examples
