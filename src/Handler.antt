-- ===== src/Handler.antt =====
-- The decisions of internal/handler: who may do what, what a request asks the backend for, and how its
-- answer is sent.
pub mod Access
pub mod Requests
pub mod Writes
pub mod Reads
pub mod Stored
pub mod Ranged
