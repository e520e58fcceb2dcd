-- ===== src/Files.antt =====
-- py_ipfs_lite/services/files_service.py: uploads and downloads in chunks. A chunk is a list of bytes;
-- a stream is its chunks, and whether it raises at the end.
pub mod Transfer
pub mod Limits
mod Tests
