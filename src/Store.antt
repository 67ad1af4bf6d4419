-- ===== src/Store.antt =====
-- The storage backend, pkg/store.
pub mod Types
pub mod Conditions
pub mod Names
pub mod Bucket
pub mod Writer
pub mod Successor
pub mod Listing
pub mod Buckets
pub mod Objects
pub mod Tests
