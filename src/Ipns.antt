-- ===== src/Ipns.antt =====
-- py_ipfs_lite/ipns.py and peer/_naming.py: signed name records. Keys, signatures, CBOR, protobuf
-- and dates are parameters.
pub mod Records
pub mod Sequence
pub mod Trust
mod Tests
