-- ===== src/S3/Tests.antt =====
-- The theorems about pkg/s3 at concrete inputs.
pub mod Data
pub mod Chunked
pub mod Objects
pub mod Listings
pub mod Paths
pub mod Uploads
