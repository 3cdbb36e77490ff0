-- ===== src/Metadata.antt =====
-- The metadata store, internal/storage/metadata/bbolt.go: one module for each group of its methods.
-- A method that runs in db.Update takes the database and returns the next one or an error, after
-- which the transaction is rolled back; one that runs in db.View returns its result.
pub mod Names
pub mod Rows
pub mod Init
pub mod Buckets
pub mod Objects
pub mod Listing
pub mod Multipart
pub mod Users
pub mod Accounts
pub mod Configs
pub mod Logs
