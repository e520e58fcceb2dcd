-- ===== src/Content.antt =====
-- py_ipfs_lite/peer/_content.py: files, nodes and pins of a peer that is started. Downloads of files
-- are in Stream, nodes in Nodes, the lists of pins in Pins.
pub mod Stream
pub mod Yields
pub mod Trees
pub mod Pins
pub mod Kept
pub mod Nodes
mod Tests
