-- ===== src/Store/Tests.antt =====
-- The theorems at concrete inputs: a bucket that is empty, one that has an object, and requests.
pub mod Data
pub mod Objects
pub mod Deletes
pub mod Listings
pub mod Stores
