-- ===== src/Car.antt =====
-- py_ipfs_lite/car.py: the frames of a CAR archive. A file is the list of its bytes. `varint`, CIDs,
-- hashes and the header's CBOR are parameters.
pub mod Frames
pub mod Blocks
pub mod RoundTrip
pub mod Exported
pub mod Archive
pub mod Imported
mod Tests
