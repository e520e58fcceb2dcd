-- ===== src/Routing.antt =====
-- py_ipfs_lite/routing.py: the routers that find providers and keep records.
-- An operation asks a router at most once, so a router is given by its answers.
pub mod Tiered
pub mod Delegated
pub mod Merged
pub mod Asked
mod Tests
