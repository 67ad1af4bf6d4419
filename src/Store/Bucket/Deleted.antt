-- ===== src/Store/Bucket/Deleted.antt =====
-- What `DeleteObject` returns, and what it changes.
use objectstorage.Prelude.{
  Option, none, some, Bool, false, if◌then◌else◌, ◌≡◌, refl, arith, ◌&&◌, ◌==◌, Bool-cases, inl,
  inr,
}
use objectstorage.Prelude.Bytes.{Bytes, bytes_eq, bytes_Eq}
use objectstorage.Prelude.Dict.{get, get-remove}
use objectstorage.Store.Types.{
  Error, Env, Result, ok, err, ObjectInfo, Conditions, ◌>>◌, object_not_found,
}
use objectstorage.Store.Conditions.{check, Satisfies, check_sound}
use objectstorage.Store.Bucket.{
  no_faults, FilePath, path_Eq, blob_path, ObjectRow, Tables, Bucket, Faults, decref_blob, select,
  scan_object, delete_tx, delete_end, delete_object, path_eq, begin, remove_blob, or_fail,
}
use objectstorage.Store.Bucket.Invariant.{IsConsistent, refs}
use objectstorage.Store.Bucket.Delete.{delete_tx-Deleted, delete_tx-IsCounted, orphan-refs}

module _ (env : Env) (fails : Faults) (name : Bytes) (conds : Conditions) (b : Bucket) where
  delete_end-err :
      (r : Result (ObjectInfo × Bool × Tables)) (e : Error)
      → (delete_end fails b r).0 ≡ err e
      → (delete_end fails b r).1 ≡ b
  delete_end-err (err e) x h = refl
  delete_end-err (ok (found, orphan, t)) x h = cc

  -- A delete that returns an error, for whatever reason, has changed nothing.
  pub delete_object-err :
      (e : Error)
      → (delete_object env fails name conds b).0 ≡ err e
      → (delete_object env fails name conds b).1 ≡ b
  unfolding delete_object
  delete_object-err e h =
      ground (arith, delete_end-err (delete_tx env fails b.name name conds b.tables) e)

  -- What a delete that succeeds has done: an object was live and its preconditions held; now it
  -- is gone, the others stand, and its blob's file is removed exactly if no object refers to it.
  pub record IsDeleted (b' : Bucket) : Type 0 where
    pub found : ObjectInfo
    pub row : ObjectRow
    pub was : get name b.objects ≡ some row
    pub info : scan_object env b.name name row ≡ ok found
    pub passed : Satisfies conds (some found)
    pub others :
        (other : Bytes)
        → get other b'.objects ≡ (if bytes_eq name other then none else get other b.objects)
    pub files :
        (path : FilePath)
        → get path b'.files ≡ (
            if path_eq (blob_path row.sha256) path && (refs row.sha256 b'.objects == 0)
            then none
            else get path b.files)

  delete_end-IsDeleted :
      (r : Result (ObjectInfo × Bool × Tables))
      → delete_tx env fails b.name name conds b.tables ≡ r
      → IsConsistent env b
      → fails remove_blob ≡ false
      → (delete_end fails b r).0 ≡ ok tt
      → IsDeleted (delete_end fails b r).1
  delete_end-IsDeleted (err e) done h f q = cc
  delete_end-IsDeleted (ok (found, orphan, t)) done h f q =
      let d = delete_tx-Deleted env fails b.name name conds b.tables found orphan t done in
      let counted =
        delete_tx-IsCounted env fails b.name name conds b.tables found orphan t done h.rows in
      let sha = d.row.sha256 in
      let last : orphan ≡ (refs sha t.objects == 0) =
        orphan-refs fails b.tables t d.row name orphan h.rows counted d.was d.blobs in
      record {
        found = found;
        row = d.row;
        was = d.was;
        info = d.info;
        passed = check_sound conds (some found) d.passed;
        others = λ other. rw d.objects (get-remove name other b.objects);
        files = λ path. ground (arith, last, d.digest, get-remove (blob_path sha) path b.files, f);
      }

  -- In a consistent bucket, where the removal of files does not fail, a delete that succeeds has
  -- found its object with its preconditions satisfied; the object is gone, every other stands, and
  -- one file is removed, its blob's, exactly if no object refers to that blob any more.
  pub delete_object-IsDeleted :
      IsConsistent env b
      → fails remove_blob ≡ false
      → (delete_object env fails name conds b).0 ≡ ok tt
      → IsDeleted (delete_object env fails name conds b).1
  unfolding delete_object
  delete_object-IsDeleted h f q = elim (Bool-cases (fails begin)) [
    | inl p ↦ absurd (ground arith)
    | inr p ↦ rw p (delete_end-IsDeleted _ refl h f (ground arith))
  ]

-- What a delete returns where no call fails, by what is live.
abbrev pub delete_outcome : Conditions → Option ObjectInfo → Result (Unit {0})
delete_outcome conds none = or_fail (check conds none) >> err object_not_found
delete_outcome conds (some found) = or_fail (check conds (some found))

module _ (env : Env) (name : Bytes) (conds : Conditions) (b : Bucket) where
  -- Where no call fails and the row can be read, what a delete returns is determined by what is live:
  -- failed preconditions and the object's absence are the only errors, the preconditions first.
  pub delete_object_outcome :
      (existing : Option ObjectInfo)
      → select env no_faults b.name name b.tables ≡ ok existing
      → (delete_object env no_faults name conds b).0 ≡ delete_outcome conds existing
  unfolding delete_object delete_tx decref_blob
  delete_object_outcome none h = rw h (ground arith)
  delete_object_outcome (some found) h = rw h (ground arith)
