-- ===== src/Examples.antt =====
-- The theorems at concrete inputs.
mod Values
mod Protocol
mod Access
mod Forwarding
mod Answers
mod Process
mod Exchanges
mod Locks
mod Connections
mod Startup
mod Spikes
mod SpikeRuns
mod Commands
