-- ===== src/Store/Writer/Consistent.antt =====
-- `Commit` keeps a bucket consistent, whatever calls fail.
use objectstorage.Prelude.{
  ℕ, Option, none, some, Bool, true, false, not, if◌then◌else◌, ◌≡◌, refl, arith, ◌⊎◌, inl, inr,
  Bool-cases,
}
use objectstorage.Prelude.Bytes.{Bytes, bytes_Eq}
use objectstorage.Prelude.Dict.{Dict, get, get-remove}
use objectstorage.Store.Types.{Error, Env, Result, ok, err, ObjectInfo, PutOptions}
use objectstorage.Store.Names.{valid_object_name}
use objectstorage.Store.Bucket.{
  FilePath, temp, path_Eq, blob_path, discard, BlobRow, Tables, Bucket, Faults, begin, sync, close,
  remove_temp, remove_blob,
}
use objectstorage.Store.Bucket.Invariant.{IsPresent, IsAddressed, IsConsistent, discard-IsAddressed}
use objectstorage.Store.Writer.{
  Writer, incref_blob, commit_rows, remove_orphan, install, commit_end, commit_installed,
  commit_body, commit, abort,
}
use objectstorage.Store.Writer.Stream.{IsSynced}
use objectstorage.Store.Writer.Counts.{left-incref_blob, left-release}
use objectstorage.Store.Writer.Files.{
  IsInstalled, install-IsInstalled, IsInstalled-IsAddressed, IsInstalled-has, get-remove_orphan,
}
use objectstorage.Store.Writer.Commit.{Committed, commit_rows-Committed, Committed-IsCounted}

remove_orphan-IsAddressed :
    (env : Env) (fails : Faults) (orphan : Option Bytes) (files : Dict FilePath Bytes)
    → IsAddressed env files
    → IsAddressed env (remove_orphan fails orphan files)
remove_orphan-IsAddressed env fails none files h = h
remove_orphan-IsAddressed env fails (some sha) files h =
    discard-IsAddressed env (fails remove_blob) (blob_path sha) files h

module _ (env : Env) (fails : Faults) (now : ℕ) (w : Writer) (name : Bytes) (opts : PutOptions)
    (b : Bucket) (files : Dict FilePath Bytes)
    (i : IsInstalled w.temp_name (env.sha256_hex w.sha) w.sha b.files files)
    (h : IsConsistent env b) where
  installed-IsConsistent : IsConsistent env (record b { files = files })
  installed-IsConsistent = record {
    rows = h.rows;
    present = λ s row e.
        IsInstalled-has env w.temp_name (env.sha256_hex w.sha) w.sha b.files files i s
          (inl (h.present s row e));
    addressed =
        IsInstalled-IsAddressed env w.temp_name (env.sha256_hex w.sha) w.sha b.files files i refl
          h.addressed;
  }

  Committed-IsPresent :
      (found : ObjectInfo) (orphan : Option Bytes) (t : Tables)
      → Committed env fails now w b.name name opts b.tables found orphan t
      → IsPresent t.blobs (remove_orphan fails orphan files)
  Committed-IsPresent found orphan t c s row e =
      let sha = env.sha256_hex w.sha in
      let (old, was, other) =
        left-release fails (incref_blob sha w.size b.blobs) orphan t.blobs c.existing s row
          c.released e in
      rw (get-remove_orphan fails orphan s files other) (
        IsInstalled-has env w.temp_name sha w.sha b.files files i s
          (before (left-incref_blob sha w.size b.blobs s old was)))
    where
      before :
          ((row : BlobRow) × (get s b.blobs ≡ some row)) ⊎ (s ≡ env.sha256_hex w.sha)
          → ((c : Bytes) × (get (blob_path s) b.files ≡ some c)) ⊎ (s ≡ env.sha256_hex w.sha)
      before (inl (row, p)) = inl (h.present s row p)
      before (inr p) = inr p

  commit_end-IsConsistent :
      (r : Result (ObjectInfo × Option Bytes × Tables))
      → commit_rows env fails now w b.name name opts b.tables ≡ r
      → IsConsistent env (commit_end fails (record b { files = files }) r).1
  commit_end-IsConsistent (err e) done = installed-IsConsistent
  commit_end-IsConsistent (ok (found, orphan, t)) done =
      let c = commit_rows-Committed env fails now w b.name name opts b.tables found orphan t done in
      record {
        rows =
            Committed-IsCounted env fails now w b.name name opts b.tables found orphan t c h.rows;
        present = Committed-IsPresent found orphan t c;
        addressed =
            remove_orphan-IsAddressed env fails orphan files installed-IsConsistent.addressed;
      }

module _ (env : Env) (fails : Faults) (now : ℕ) (w : Writer) (name : Bytes) (opts : PutOptions)
    (b : Bucket) (synced : IsSynced w b) (h : IsConsistent env b) where
  commit_installed-IsConsistent :
      (r : Result (Dict FilePath Bytes))
      → install fails w.temp_name (env.sha256_hex w.sha) b.files ≡ r
      → IsConsistent env (commit_installed env fails now w name opts b r).1
  unfolding commit_installed
  commit_installed-IsConsistent (err e) done = h
  commit_installed-IsConsistent (ok files) done =
      let i =
        install-IsInstalled fails w.temp_name (env.sha256_hex w.sha) w.sha b.files files synced.file
          done in
      elim (Bool-cases (fails begin)) [
        | inl p ↦ rw p (installed-IsConsistent env fails now w name opts b files i h)
        | inr p ↦ rw p (commit_end-IsConsistent env fails now w name opts b files i h _ refl)
      ]

  commit_body-IsConsistent : IsConsistent env (commit_body env fails now w name opts b).1
  unfolding commit_body
  commit_body-IsConsistent = if-keeps (not (valid_object_name name)) _ _ (
      if-keeps (fails sync) _ _ (if-keeps (fails close) _ _ (commit_installed-IsConsistent _ refl)))
    where
      if-keeps :
          (test : Bool) (e : Error) (r : Result ObjectInfo × Bucket)
          → IsConsistent env r.1
          → IsConsistent env (if test then (err e, b) else r).1
      if-keeps true e r k = h
      if-keeps false e r k = k

pub discard_temp-IsConsistent :
    (env : Env) (failed : Bool) (temp_name : Bytes) (b : Bucket)
    → IsConsistent env b
    → IsConsistent env (record b { files = discard failed (temp temp_name) b.files })
unfolding blob_path
discard_temp-IsConsistent env failed temp_name b h = record {
  rows = h.rows;
  present = λ s row e.
      let (c, at) = h.present s row e in
      (c, ground (arith, get-remove (temp temp_name) (blob_path s) b.files));
  addressed = discard-IsAddressed env failed (temp temp_name) b.files h.addressed;
}

-- Whatever calls fail, and on every path out of it, a commit of an open writer, whose hashes follow
-- its file, keeps a consistent bucket consistent: each blob's count is the number of its objects, its
-- file is there, and every blob file is named by the digest of its content.
pub commit-IsConsistent :
    (env : Env) (fails : Faults) (now : ℕ) (name : Bytes) (opts : PutOptions) (w : Writer)
    (b : Bucket)
    → IsSynced w b
    → IsConsistent env b
    → IsConsistent env (commit env fails now name opts w b).2
unfolding commit
commit-IsConsistent env fails now name opts w b synced h = simp synced.is_open (
    discard_temp-IsConsistent env (fails remove_temp) w.temp_name _
      (commit_body-IsConsistent env fails now w name opts b synced h))

-- Whether or not the temporary file can be removed, an abort leaves a consistent bucket consistent.
pub abort-IsConsistent :
    (env : Env) (fails : Faults) (w : Writer) (b : Bucket)
    → IsConsistent env b
    → IsConsistent env (abort fails w b).1
unfolding abort
abort-IsConsistent env fails w b h = elim (Bool-cases w.done) [
  | inl p ↦ rw p h
  | inr p ↦ rw p (discard_temp-IsConsistent env (fails remove_temp) w.temp_name b h)
]
