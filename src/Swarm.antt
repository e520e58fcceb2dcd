-- ===== src/Swarm.antt =====
-- py_ipfs_lite/services/swarm_service.py, for a peer with a host: the connected peers, with what the
-- connection tracker knows of them, and the tag store. The library's tag store is a parameter.
pub mod Connected
pub mod Listed
pub mod Oldest
pub mod Tags
mod Tests
