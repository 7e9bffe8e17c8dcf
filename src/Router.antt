-- ===== src/Router.antt =====
-- bridge/src/router.rs: the bridge's state and the handling of one request. The state is shared
-- behind a lock, so what other tasks do to it while this one waits is an argument (`Others`), and
-- so are the answers of the network and of the clock.
pub mod State
pub mod Gate
pub mod TokenCalls
pub mod Forward
pub mod Handle
pub mod Admission
pub mod Coverage
pub mod Replies
pub mod Categories
pub mod Patience
