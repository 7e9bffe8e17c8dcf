-- ===== src/Main.antt =====
-- bridge/src/main.rs: the three modes of the program.
pub mod Echo
pub mod Requests
pub mod Bootstrap
pub mod Bridge
pub mod Discovery
pub mod Dispatch
