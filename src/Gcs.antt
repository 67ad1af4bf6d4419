-- ===== src/Gcs.antt =====
-- pkg/gcs: uploads by the protocol of GCS.
pub mod Conditions
pub mod Upload
pub mod Resources
pub mod Buckets
pub mod Objects
pub mod Server
pub mod Tests
