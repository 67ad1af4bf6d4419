-- ===== src/Store/Bucket/Readable.antt =====
-- In a consistent bucket every object can be opened.
use objectstorage.Prelude.{Option, none, some, ◌≡◌, refl, arith}
use objectstorage.Prelude.Bytes.{Bytes, bytes_eq_iff, bytes_Eq}
use objectstorage.Prelude.Dict.{get}
use objectstorage.Store.Types.{Env, ok, ObjectInfo}
use objectstorage.Store.Bucket.{
  no_faults, path_Eq, blob_path, ObjectRow, BlobRow, Bucket, scan_object, get_object, open_object,
}
use objectstorage.Store.Bucket.Invariant.{IsConsistent, refs-remove}

module _ (env : Env) (b : Bucket) (h : IsConsistent env b) (name : Bytes) (row : ObjectRow)
    (was : get name b.objects ≡ some row) where
  -- The file of an object's blob is there, and its content has the digest of the row.
  pub content-at :
      (c : Bytes) × (get (blob_path row.sha256) b.files ≡ some c) × (env.sha256_hex c ≡ row.sha256)
  content-at = split (get row.sha256 b.blobs) refl
    where
      split :
          (o : Option BlobRow)
          → get row.sha256 b.blobs ≡ o
          → (c : Bytes) × (get (blob_path row.sha256) b.files ≡ some c)
            × (env.sha256_hex c ≡ row.sha256)
      split none e = absurd (
          ground (
            arith,
            e,
            h.rows.counted row.sha256,
            refs-remove row.sha256 name row b.objects h.rows.unique was,
            bytes_eq_iff row.sha256 row.sha256,
          ))
      split (some blob) e =
          let (c, at) = h.present row.sha256 blob e in (c, at, h.addressed row.sha256 c at)

  pub open_object-eq :
      (found : ObjectInfo) (c : Bytes)
      → get_object env no_faults name b ≡ ok found
      → found.sha256 ≡ row.sha256
      → get (blob_path row.sha256) b.files ≡ some c
      → open_object env no_faults name b ≡ ok (found, c)
  unfolding open_object
  open_object-eq found c p q at = simp (p, q, at)

-- In a consistent bucket, where no call fails, every object that can be described can be opened, and
-- the content that is read has the digest of the description.
pub open_object-total :
    (env : Env) (b : Bucket) (name : Bytes) (found : ObjectInfo)
    → IsConsistent env b
    → get_object env no_faults name b ≡ ok found
    → (c : Bytes) × (open_object env no_faults name b ≡ ok (found, c))
      × (env.sha256_hex c ≡ found.sha256)
unfolding get_object scan_object
open_object-total env b name found h p = split (get name b.objects) refl
  where
    split :
        (o : Option ObjectRow)
        → get name b.objects ≡ o
        → (c : Bytes) × (open_object env no_faults name b ≡ ok (found, c))
          × (env.sha256_hex c ≡ found.sha256)
    split none e = absurd (ground arith)
    split (some row) e =
        let (c, at, digest) = content-at env b h name row e in
        let q : found.sha256 ≡ row.sha256 = ground arith in
        (c, open_object-eq env b h name row e found c p q at, rw q digest)
