-- ===== src/Store/Writer/Counts.antt =====
-- What the transaction of `Commit` does to the reference counts.
use objectstorage.Prelude.{
  ℕ, ◌+◌, ◌-◌, ◌<◌, Option, none, some, Bool, if◌then◌else◌, ◌≡◌, ◌≢◌, refl, arith, ◌⊎◌, inl, inr,
  Bool-cases,
}
use objectstorage.Prelude.Bytes.{Bytes, bytes_eq, bytes_eq_iff, bytes_Eq}
use objectstorage.Prelude.Dict.{Dict, get, get-put}
use objectstorage.Store.Types.{Result, ok, err, ObjectInfo}
use objectstorage.Store.Bucket.{BlobRow, Faults, decref_blob}
use objectstorage.Store.Bucket.Invariant.{
  refcount_of, one_if, refcount-decref_blob, positive-decref_blob, left-decref_blob,
}
use objectstorage.Store.Writer.{incref_blob, release}

abbrev pub IsPositive : Dict Bytes BlobRow → Type 0
IsPositive blobs = (s : Bytes) (row : BlobRow) → get s blobs ≡ some row → 0 < row.refcount

module _ (sha : Bytes) (size : ℕ) (blobs : Dict Bytes BlobRow) (s : Bytes) where
  pub refcount-incref_blob :
      refcount_of (get s (incref_blob sha size blobs))
      ≡ refcount_of (get s blobs) + one_if (bytes_eq sha s)
  unfolding incref_blob
  refcount-incref_blob = grind (arith, get-put, bytes_eq_iff sha s)

  pub positive-incref_blob :
      (row : BlobRow)
      → IsPositive blobs
      → get s (incref_blob sha size blobs) ≡ some row
      → 0 < row.refcount
  unfolding incref_blob
  positive-incref_blob row h e = grind (arith, get-put, bytes_eq_iff sha s, h s)

  -- A row that is there afterwards was there, or is the one that was counted.
  pub left-incref_blob :
      (row : BlobRow)
      → get s (incref_blob sha size blobs) ≡ some row
      → ((old : BlobRow) × (get s blobs ≡ some old)) ⊎ (s ≡ sha)
  unfolding incref_blob
  left-incref_blob row e = elim (Bool-cases (bytes_eq sha s)) [
    | inl p ↦ inr (ground (arith, bytes_eq_iff sha s))
    | inr p ↦ inl (row, grind (arith, get-put, bytes_eq_iff sha s))
  ]

abbrev pub lost : Option ObjectInfo → Bytes → ℕ
lost none s = 0
lost (some o) s = one_if (bytes_eq o.sha256 s)

-- What `release` has done for an object that is replaced.
record IsReleased (fails : Faults) (sha : Bytes) (blobs : Dict Bytes BlobRow)
    (orphan : Option Bytes) (blobs' : Dict Bytes BlobRow) : Type 0 where
  last : Bool
  done : decref_blob fails sha blobs ≡ ok (last, blobs')
  result : orphan ≡ (if last then some sha else none)

release-IsReleased :
    (fails : Faults) (o : ObjectInfo) (blobs : Dict Bytes BlobRow) (orphan : Option Bytes)
    (blobs' : Dict Bytes BlobRow)
    → release fails (some o) blobs ≡ ok (orphan, blobs')
    → IsReleased fails o.sha256 blobs orphan blobs'
unfolding release
release-IsReleased fails o blobs orphan blobs' h = split (decref_blob fails o.sha256 blobs) refl
  where
    split :
        (r : Result (Bool × Dict Bytes BlobRow))
        → decref_blob fails o.sha256 blobs ≡ r
        → IsReleased fails o.sha256 blobs orphan blobs'
    split (err e) p = absurd (ground arith)
    split (ok (last, rows)) p = record { last = last; done = ground arith; result = ground arith }

module _ (fails : Faults) (blobs : Dict Bytes BlobRow) (orphan : Option Bytes)
    (blobs' : Dict Bytes BlobRow) where
  pub refcount-release :
      (o : Option ObjectInfo) (s : Bytes)
      → release fails o blobs ≡ ok (orphan, blobs')
      → refcount_of (get s blobs') ≡ refcount_of (get s blobs) - lost o s
  unfolding release
  refcount-release none s h = ground arith
  refcount-release (some o) s h =
      let r = release-IsReleased fails o blobs orphan blobs' h in
      refcount-decref_blob fails o.sha256 blobs r.last blobs' r.done s

  pub IsPositive-release :
      (o : Option ObjectInfo)
      → release fails o blobs ≡ ok (orphan, blobs')
      → IsPositive blobs
      → IsPositive blobs'
  unfolding release
  IsPositive-release none h p = λ s row e. ground (arith, p s row)
  IsPositive-release (some o) h p =
      let r = release-IsReleased fails o blobs orphan blobs' h in
      positive-decref_blob fails o.sha256 blobs r.last blobs' r.done p

  -- A row that is left was there, and is not the orphan.
  pub left-release :
      (o : Option ObjectInfo) (s : Bytes) (row : BlobRow)
      → release fails o blobs ≡ ok (orphan, blobs')
      → get s blobs' ≡ some row
      → (old : BlobRow) × (get s blobs ≡ some old) × (orphan ≢ some s)
  unfolding release
  left-release none s row h e = (row, ground arith, ground arith)
  left-release (some o) s row h e =
      let r = release-IsReleased fails o blobs orphan blobs' h in
      let (old, was, other) = left-decref_blob fails o.sha256 blobs r.last blobs' r.done s row e in
      (old, was, λ q. ground (arith, other, r.result))
