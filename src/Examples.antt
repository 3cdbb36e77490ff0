-- ===== src/Examples.antt =====
-- Small databases and encodings, and the theorems on them.
pub mod Stores
pub mod Contents
mod Objects
mod Listing
mod Buckets
mod Access
mod Backend
mod Tokens
mod Logs
mod Accounts
mod Users
mod Multipart
mod Chunks
mod Middleware
mod Signatures
mod Uploads
mod Handlers
