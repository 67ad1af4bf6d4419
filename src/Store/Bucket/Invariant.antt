-- ===== src/Store/Bucket/Invariant.antt =====
-- What keeps a bucket whole: each blob's count is the number of its objects, and its file is there.
use objectstorage.Prelude.{
  ℕ, ◌+◌, ◌-◌, ◌<◌, Option, none, some, Bool, true, false, if◌then◌else◌, ◌==◌, ◌≡◌, ◌≢◌, refl,
  arith,
}
use objectstorage.Prelude.Bytes.{Bytes, bytes_eq, bytes_eq_iff, bytes_Eq}
use objectstorage.Prelude.Dict.{Dict, get, remove, IsUnique, count, count-remove, get-remove}
use objectstorage.Store.Types.{Env, ok}
use objectstorage.Store.Bucket.{
  FilePath, path_Eq, blob_path, discard, ObjectRow, BlobRow, Tables, Bucket, Faults, decref_blob,
}
use objectstorage.Store.Bucket.Blobs.{get-decref_blob}

abbrev pub holds : Bytes → ObjectRow → Bool
holds s row = bytes_eq row.sha256 s

-- The number of objects whose content has the digest `s`.
abbrev pub refs : Bytes → Dict Bytes ObjectRow → ℕ
refs s objects = count (holds s) objects

abbrev pub refcount_of : Option BlobRow → ℕ
refcount_of none = 0
refcount_of (some row) = row.refcount

abbrev pub one_if : Bool → ℕ
one_if b = if b then 1 else 0

pub record IsCounted (t : Tables) : Type 0 where
  pub unique : IsUnique t.objects
  pub positive : (s : Bytes) (row : BlobRow) → get s t.blobs ≡ some row → 0 < row.refcount
  pub counted : (s : Bytes) → refs s t.objects ≡ refcount_of (get s t.blobs)

-- Every blob of the table has a file.
abbrev pub IsPresent : Dict Bytes BlobRow → Dict FilePath Bytes → Type 0
IsPresent blobs files =
    (s : Bytes) (row : BlobRow)
    → get s blobs ≡ some row
    → (c : Bytes) × (get (blob_path s) files ≡ some c)

-- Every blob file, referred to or not, is named by the digest of its content.
abbrev pub IsAddressed : Env → Dict FilePath Bytes → Type 0
IsAddressed env files = (s c : Bytes) → get (blob_path s) files ≡ some c → env.sha256_hex c ≡ s

pub record IsConsistent (env : Env) (b : Bucket) : Type 0 where
  pub rows : IsCounted b.tables
  pub present : IsPresent b.blobs b.files
  pub addressed : IsAddressed env b.files

pub refs-remove :
    (s name : Bytes) (row : ObjectRow) (objects : Dict Bytes ObjectRow)
    → IsUnique objects
    → get name objects ≡ some row
    → refs s objects ≡ one_if (bytes_eq row.sha256 s) + refs s (remove name objects)
refs-remove s name row objects u h = ground (arith, count-remove (holds s) name objects u)

pub refs-remove-none :
    (s name : Bytes) (objects : Dict Bytes ObjectRow)
    → IsUnique objects
    → get name objects ≡ none
    → refs s objects ≡ refs s (remove name objects)
refs-remove-none s name objects u h = ground (arith, count-remove (holds s) name objects u)

module _ (fails : Faults) (sha : Bytes) (blobs : Dict Bytes BlobRow) (orphan : Bool)
    (blobs' : Dict Bytes BlobRow) (done : decref_blob fails sha blobs ≡ ok (orphan, blobs')) where
  -- One reference less for the digest, and the same for every other.
  pub refcount-decref_blob :
      (s : Bytes) → refcount_of (get s blobs') ≡ refcount_of (get s blobs) - one_if (bytes_eq sha s)
  refcount-decref_blob s =
      ground (arith, get-decref_blob sha blobs fails orphan blobs' s done, bytes_eq_iff sha s)

  pub positive-decref_blob :
      ((s : Bytes) (row : BlobRow) → get s blobs ≡ some row → 0 < row.refcount)
      → (s : Bytes) (row : BlobRow) → get s blobs' ≡ some row
      → 0 < row.refcount
  positive-decref_blob h s row e =
      ground (arith, get-decref_blob sha blobs fails orphan blobs' s done, h s row)

  -- What is left was there, and an orphan is not left.
  pub left-decref_blob :
      (s : Bytes) (row : BlobRow)
      → get s blobs' ≡ some row
      → (old : BlobRow) × (get s blobs ≡ some old) × (orphan ≡ true → s ≢ sha)
  left-decref_blob s row e = before (get s blobs) refl
    where
      before :
          (o : Option BlobRow)
          → get s blobs ≡ o
          → (old : BlobRow) × (get s blobs ≡ some old) × (orphan ≡ true → s ≢ sha)
      before none q =
          absurd (
            ground
              (arith, get-decref_blob sha blobs fails orphan blobs' s done, bytes_eq_iff sha s))
      before (some old) q = (
        old,
        q,
        λ o p.
            ground
              (arith, get-decref_blob sha blobs fails orphan blobs' s done, bytes_eq_iff sha s),
      )

  -- A blob that had references is orphaned exactly if no reference is left.
  pub orphan-decref_blob :
      0 < refcount_of (get sha blobs) → orphan ≡ (refcount_of (get sha blobs') == 0)
  orphan-decref_blob h =
      ground (arith, get-decref_blob sha blobs fails orphan blobs' sha done, bytes_eq_iff sha sha)

-- Removing files keeps the others named by their digests.
pub discard-IsAddressed :
    (env : Env) (failed : Bool) (path : FilePath) (files : Dict FilePath Bytes)
    → IsAddressed env files
    → IsAddressed env (discard failed path files)
discard-IsAddressed env failed path files h s c e =
    ground (arith, get-remove path (blob_path s) files, h s c)

pub if-IsAddressed :
    (env : Env) (orphan failed : Bool) (path : FilePath) (files : Dict FilePath Bytes)
    → IsAddressed env files
    → IsAddressed env (if orphan then discard failed path files else files)
if-IsAddressed env true failed path files h = discard-IsAddressed env failed path files h
if-IsAddressed env false failed path files h = h
