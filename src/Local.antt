-- ===== src/Local.antt =====
-- The object backend, internal/storage/local: the paths and contents of files, objects and uploads over
-- the metadata store, and the reader of signed chunks.
pub mod Paths
pub mod Objects
pub mod Listing
pub mod Disk
pub mod Contents
pub mod Batches
pub mod Multipart
pub mod Uploads
pub mod Chunks
