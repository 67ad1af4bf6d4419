-- ===== src/Store/Bucket/Delete.antt =====
-- `DeleteObject` keeps a bucket consistent.
use objectstorage.Prelude.{
  Option, none, some, Bool, if◌then◌else◌, ◌≡◌, refl, arith, ◌==◌, Bool-cases, inl, inr,
}
use objectstorage.Prelude.Bytes.{Bytes, bytes_eq_iff, bytes_Eq}
use objectstorage.Prelude.Dict.{Dict, get, remove, get-remove, remove-IsUnique}
use objectstorage.Store.Types.{Env, Result, ok, err, ObjectInfo, Conditions}
use objectstorage.Store.Conditions.{check}
use objectstorage.Store.Bucket.{
  FilePath, path_Eq, blob_path, discard, ObjectRow, Tables, Bucket, Faults, decref_blob,
  scan_object, delete_tx, delete_end, delete_object, begin, remove_blob,
}
use objectstorage.Store.Bucket.Invariant.{
  IsCounted, IsPresent, if-IsAddressed, IsConsistent, refs, refs-remove, orphan-decref_blob,
  refcount-decref_blob, positive-decref_blob, left-decref_blob,
}

-- What a transaction that succeeds has found and done.
pub record Deleted (env : Env) (fails : Faults) (bucket name : Bytes) (conds : Conditions)
    (t : Tables) (found : ObjectInfo) (orphan : Bool) (t' : Tables) : Type 0 where
  pub row : ObjectRow
  pub was : get name t.objects ≡ some row
  pub info : scan_object env bucket name row ≡ ok found
  pub digest : found.sha256 ≡ row.sha256
  pub passed : check conds (some found) ≡ none
  pub objects : t'.objects ≡ remove name t.objects
  pub blobs : decref_blob fails row.sha256 t.blobs ≡ ok (orphan, t'.blobs)

module _ (env : Env) (fails : Faults) (bucket name : Bytes) (conds : Conditions) (t : Tables)
    (found : ObjectInfo) (orphan : Bool) (t' : Tables) where
  pub delete_tx-Deleted :
      delete_tx env fails bucket name conds t ≡ ok (found, orphan, t')
      → Deleted env fails bucket name conds t found orphan t'
  unfolding delete_tx scan_object
  delete_tx-Deleted h = split (get name t.objects) refl
    where
      split :
          (o : Option ObjectRow)
          → get name t.objects ≡ o
          → Deleted env fails bucket name conds t found orphan t'
      split none e = absurd (ground arith)
      split (some r) e = record {
        row = r;
        was = e;
        info = ground arith;
        digest = ground arith;
        passed = ground arith;
        objects = ground arith;
        blobs = ground arith;
      }

  module _ (done : delete_tx env fails bucket name conds t ≡ ok (found, orphan, t')) where
    pub delete_tx-IsCounted : IsCounted t → IsCounted t'
    delete_tx-IsCounted h =
        let d = delete_tx-Deleted done in
        record {
          unique = rw d.objects (remove-IsUnique name t.objects h.unique);
          positive =
              positive-decref_blob fails d.row.sha256 t.blobs orphan t'.blobs d.blobs h.positive;
          counted = λ s. rw d.objects (
              omega (
                arith,
                h.counted s,
                refs-remove s name d.row t.objects h.unique d.was,
                refcount-decref_blob fails d.row.sha256 t.blobs orphan t'.blobs d.blobs s,
              ));
        }

    delete_tx-IsPresent :
        (files : Dict FilePath Bytes) (failed : Bool)
        → IsPresent t.blobs files
        → IsPresent t'.blobs
            (if orphan then discard failed (blob_path found.sha256) files else files)
    unfolding blob_path
    delete_tx-IsPresent files failed h s row e =
        let d = delete_tx-Deleted done in
        let (old, was, other) =
          left-decref_blob fails d.row.sha256 t.blobs orphan t'.blobs d.blobs s row e in
        let (c, at) = h s old was in
        (
          c,
          grind (
            arith,
            get-remove (blob_path found.sha256) (blob_path s) files,
            bytes_eq_iff found.sha256 s,
            d.digest,
          ),
        )

-- The blob of an object is orphaned exactly if no object refers to it afterwards.
pub orphan-refs :
    (fails : Faults) (t t' : Tables) (row : ObjectRow) (name : Bytes) (orphan : Bool)
    → IsCounted t
    → IsCounted t'
    → get name t.objects ≡ some row
    → decref_blob fails row.sha256 t.blobs ≡ ok (orphan, t'.blobs)
    → orphan ≡ (refs row.sha256 t'.objects == 0)
orphan-refs fails t t' row name orphan h h' was done =
    let sha = row.sha256 in
    rw (h'.counted sha) (
      orphan-decref_blob fails sha t.blobs orphan t'.blobs done (
        ground (
          arith,
          h.counted sha,
          refs-remove sha name row t.objects h.unique was,
          bytes_eq_iff sha sha,
        )))

module _ (env : Env) (fails : Faults) (name : Bytes) (conds : Conditions) (b : Bucket) where
  delete_end-IsConsistent :
      (r : Result (ObjectInfo × Bool × Tables))
      → delete_tx env fails b.name name conds b.tables ≡ r
      → IsConsistent env b
      → IsConsistent env (delete_end fails b r).1
  delete_end-IsConsistent (err e) done h = h
  delete_end-IsConsistent (ok (found, orphan, t)) done h = record {
    rows = delete_tx-IsCounted env fails b.name name conds b.tables found orphan t done h.rows;
    present =
        delete_tx-IsPresent env fails b.name name conds b.tables found orphan t done b.files
          (fails remove_blob) h.present;
    addressed =
        if-IsAddressed env orphan (fails remove_blob) (blob_path found.sha256) b.files h.addressed;
  }

  -- Whatever calls fail, a delete keeps a consistent bucket consistent: its reference counts, the
  -- files of its blobs and their names.
  pub delete_object-IsConsistent :
      IsConsistent env b → IsConsistent env (delete_object env fails name conds b).1
  unfolding delete_object
  delete_object-IsConsistent h = elim (Bool-cases (fails begin)) [
    | inl p ↦ rw p h
    | inr p ↦ rw p (delete_end-IsConsistent _ refl h)
  ]
