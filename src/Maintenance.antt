-- ===== src/Maintenance.antt =====
-- py_ipfs_lite/peer/_maintenance.py: the sweep that pings connected peers, the connection pruner, and
-- the reset of streams that have leaked. Times are milliseconds. A peer's connections are given by
-- whether each is closed.
pub mod KeepAlive
pub mod Pruner
pub mod Resets
mod Tests
