-- ===== src/Conns.antt =====
-- py_ipfs_lite/connection_tracker.py: the connections of the `ConnectionStatsTracker`. The `dict` of a
-- connection's details is one object that is stored under the ids of two others, so `_conn_meta` maps
-- ids to references and the objects stand in a heap. Times are milliseconds; a time stamp is the time.
pub mod Details
pub mod Table
pub mod Events
pub mod Capacity
pub mod Report
pub mod Others
pub mod Lives
pub mod Lookups
pub mod Evicted
mod Tests
