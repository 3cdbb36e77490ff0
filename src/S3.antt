-- ===== src/S3.antt =====
-- The rules of internal/s3 that are not about encoding, and the canned access control lists.
pub mod Names
pub mod Responses
