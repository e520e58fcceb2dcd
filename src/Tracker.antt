-- ===== src/Tracker.antt =====
-- py_ipfs_lite/connection_tracker.py: the streams of the `ConnectionStatsTracker`.
-- Times are natural numbers of milliseconds. What the tracker reads from libp2p's objects is an
-- argument of each operation. The Prometheus counters and the log are not modelled.
pub mod Types
pub mod Signals
pub mod Streams
pub mod Sweep
pub mod Tally
pub mod Balance
pub mod Renew
pub mod Ledger
pub mod Kept
pub mod Loops
pub mod Leaks
pub mod Runs
pub mod Snapshot
mod Tests
