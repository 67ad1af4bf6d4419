-- ===== src/S3/Multipart/Succeeds.antt =====
-- A completion of pkg/s3 in which no call fails succeeds.
use objectstorage.Prelude.{ℕ, suc, ◌≤◌, Option, some, false, List, length, ◌≡◌}
use objectstorage.Prelude.Bytes.{Bytes, bytes_Eq}
use objectstorage.Store.Bucket.{path_Eq, Bucket, no_faults}
use objectstorage.Store.Buckets.{Store}
use objectstorage.Store.Listing.Reference.{All}
use objectstorage.Store.Writer.{Writer}
use objectstorage.S3.Body.{Host}
use objectstorage.S3.Multipart.Complete.{Assembly}

-- Every write stores its piece whole.
abbrev IsStored : List (Bytes × ℕ) → Type 0
IsStored = All (λ c. length c.0 ≤ c.1)

abbrev IsThere : Option Bytes → Type 0
IsThere o = (file : Bytes) × (o ≡ some file)

-- No call of the host fails.
pub record IsHealthy (host : Host) : Type 0 where
  pub opens : (n : ℕ) → host.open_fails n ≡ false
  pub reads : (n : ℕ) → host.file_breaks n ≡ false
  pub stores : (i : ℕ) → suc host.buffer ≤ host.stored i

-- The host when no call of the store fails.
abbrev pub calm : Host → Host
calm host = record host { fails = λ call. no_faults }
