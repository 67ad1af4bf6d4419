-- ===== src/S3.antt =====
-- pkg/s3: the protocol of Amazon S3.
pub mod Text
pub mod Chunked
pub mod Xml
pub mod Body
pub mod Buckets
pub mod Listing
pub mod Objects
pub mod Multipart
pub mod Server
pub mod Tests
