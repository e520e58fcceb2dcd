-- ===== src/Pubsub.antt =====
-- py_ipfs_lite/peer/_pubsub.py: the topics that a peer is subscribed to, the scorer that joins and
-- leaves topics by what the connected peers announce, and the buffers of messages. libp2p's Pubsub is
-- a parameter: whether a subscription succeeds, and which peers announce a topic.
pub mod Topics
pub mod Scorer
pub mod Buffers
pub mod Streaks
pub mod Passes
pub mod Joins
pub mod Rules
mod Tests
