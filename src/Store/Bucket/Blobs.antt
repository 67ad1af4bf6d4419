-- ===== src/Store/Bucket/Blobs.antt =====
-- The reference counts of pkg/store/bucket.go: what `decref_blob` leaves in the table, and the
-- invariant that ties the counts to the objects.
use objectstorage.Prelude.{◌-◌, Option, none, some, Bool, false, if◌then◌else◌, leb, ◌≡◌, arith}
use objectstorage.Prelude.Bytes.{Bytes, bytes_eq, bytes_eq_iff, bytes_Eq}
use objectstorage.Prelude.Dict.{Dict, get, get-put, get-remove}
use objectstorage.Store.Types.{ok}
use objectstorage.Store.Bucket.{BlobRow, Faults, decrement, decref_blob}

-- The row of a blob after one reference less: gone, if that was the last.
abbrev pub lowered : Option BlobRow → Option BlobRow
lowered none = none
lowered (some row) =
    if leb (row.refcount - 1) 0 then none else some (record row { refcount = row.refcount - 1 })

abbrev pub is_last : Option BlobRow → Bool
is_last none = false
is_last (some row) = leb (row.refcount - 1) 0

abbrev less_one : BlobRow → BlobRow
less_one row = record row { refcount = row.refcount - 1 }

abbrev map_row : (BlobRow → BlobRow) → Option BlobRow → Option BlobRow
map_row f none = none
map_row f (some row) = some (f row)

module _ (sha : Bytes) (blobs : Dict Bytes BlobRow) where
  get-decrement :
      (s : Bytes)
      → get s (decrement sha blobs)
        ≡ (if bytes_eq sha s then map_row less_one (get sha blobs) else get s blobs)
  unfolding decrement
  get-decrement s = grind (arith, get-put, bytes_eq_iff)

  -- What `decref_blob` returns and leaves, where it succeeds.
  pub get-decref_blob :
      (fails : Faults) (orphan : Bool) (blobs' : Dict Bytes BlobRow) (s : Bytes)
      → decref_blob fails sha blobs ≡ ok (orphan, blobs')
      → (orphan ≡ is_last (get sha blobs))
        × (get s blobs' ≡ (if bytes_eq sha s then lowered (get sha blobs) else get s blobs))
  unfolding decref_blob
  get-decref_blob fails orphan blobs' s h = grind (
    arith,
    get-decrement sha,
    get-decrement s,
    get-remove sha s (decrement sha blobs),
    bytes_eq_iff sha s,
    bytes_eq_iff sha sha,
  )
