-- ===== src/Store/Writer.antt =====
-- pkg/store/blobwriter.go: a writer streams a content into a temporary file while it feeds three
-- hashes, and its commit moves the file into the blob store together with the object's row. The
-- state of a `hash.Hash` is the bytes that it has been fed.
pub mod Copy
pub mod Stream
pub mod Counts
pub mod Files
pub mod Commit
pub mod Consistent
pub mod Effects
pub mod ReadBack
pub mod Put
pub mod Named
pub mod Outcome
pub mod Conflicts
use objectstorage.Prelude.{
  ℕ, ◌+◌, ◌/◌, Option, none, some, Bool, true, false, not, ◌&&◌, if◌then◌else◌, List, [], ◌∷◌, ◌++◌,
  length, take, ltb, arith,
}
use objectstorage.Prelude.Bytes.{Bytes, bytes_eq, bytes_Eq}
use objectstorage.Prelude.Dict.{Dict, get, put, remove}
use objectstorage.Prelude.Int.{ℤ, pos, ◌≤ℤ◌, inc64}
use objectstorage.Store.Types.{
  Error, invalid_name, call_failed, finished, Result, ok, err, ◌>>=◌, ◌>>◌, unless, Metadata, Env,
  ObjectInfo, PutOptions,
}
use objectstorage.Store.Conditions.{check}
use objectstorage.Store.Names.{valid_object_name}
use objectstorage.Store.Bucket.{
  FilePath, temp, path_Eq, blob_path, ObjectRow, BlobRow, Tables, Bucket, Call, create_temp, sync,
  close, stat, mkdir, rename, remove_temp, remove_blob, begin, insert_blob, insert_object,
  commit_tx, Faults, empty_json, select, decref_blob, discard, or_fail,
}

pub record Writer : Type 0 where
  pub temp_name : Bytes
  pub sha : Bytes
  pub md5h : Bytes
  pub crc : Bytes
  pub size : ℕ
  pub done : Bool

-- `temp_name` is the fresh name that `os.CreateTemp` picks.
unfoldable pub new_blob_writer : Faults → Bytes → Bucket → Result Writer × Bucket
new_blob_writer fails temp_name b = if fails create_temp then (err call_failed, b) else (
  ok (record { temp_name = temp_name; sha = []; md5h = []; crc = []; size = 0; done = false }),
  record b { files = put (temp temp_name) [] b.files },
)

abbrev appended : FilePath → Bytes → Dict FilePath Bytes → Option Bytes → Dict FilePath Bytes
appended path p files none = files
appended path p files (some content) = put path (content ++ p) files

abbrev pub append_file : FilePath → Bytes → Dict FilePath Bytes → Dict FilePath Bytes
append_file path p files = appended path p files (get path files)

-- `n` is what `w.tmp.Write(p)` returns: how many bytes went into the file.
unfoldable pub write : Bytes → ℕ → Writer → Bucket → Result ℕ × Writer × Bucket
write p n w b = if w.done then (err finished, w, b) else (
  (if ltb n (length p) then err call_failed else ok n),
  record w {
    sha = w.sha ++ take n p;
    md5h = w.md5h ++ take n p;
    crc = w.crc ++ take n p;
    size = w.size + length (take n p);
  },
  record b { files = append_file (temp w.temp_name) (take n p) b.files },
)

unfoldable pub checksums : Env → Writer → Bytes × Bytes × ℕ
checksums env w = (env.sha256_hex w.sha, env.md5_sum w.md5h, env.crc32c_sum w.crc)

unfoldable pub abort : Faults → Writer → Bucket → Writer × Bucket
abort fails w b = if w.done then (w, b) else (
  record w { done = true },
  record b { files = discard (fails remove_temp) (temp w.temp_name) b.files },
)

abbrev pub move_file :
    Bool → FilePath → FilePath → Dict FilePath Bytes → Option Bytes → Result (Dict FilePath Bytes)
move_file failed source target files none = err call_failed
move_file failed source target files (some content) =
    if failed then err call_failed else ok (put target content (remove source files))

abbrev pub is_some {ℓ} : {A : Type ℓ} → Option A → Bool
is_some none = false
is_some (some a) = true

-- The blob file is installed, unless a file of that content is there.
unfoldable pub install : Faults → Bytes → Bytes → Dict FilePath Bytes → Result (Dict FilePath Bytes)
install fails temp_name sha files =
    if not (fails stat) && is_some (get (blob_path sha) files)
    then ok files
    else if fails mkdir
    then err call_failed
    else move_file (fails rename) (temp temp_name) (blob_path sha) files
        (get (temp temp_name) files)

-- `now.UnixMicro()`, or the next number after the generation that is replaced
unfoldable pub next_generation : ℕ → Option ObjectInfo → ℤ
next_generation now none = pos (now / 1000)
next_generation now (some o) =
    if pos (now / 1000) ≤ℤ o.generation then inc64 o.generation else pos (now / 1000)

-- `INSERT … ON CONFLICT(sha256) DO UPDATE SET refcount = refcount + 1`
unfoldable pub incref_blob : Bytes → ℕ → Dict Bytes BlobRow → Dict Bytes BlobRow
incref_blob sha size blobs = elim (get sha blobs) [
  | none ↦ put sha (record { size = size; refcount = 1 }) blobs
  | some row ↦ put sha (record row { refcount = row.refcount + 1 }) blobs
]

-- The blob of the object that is replaced loses a reference; its name comes back if it is orphaned.
unfoldable pub release :
    Faults → Option ObjectInfo → Dict Bytes BlobRow → Result (Option Bytes × Dict Bytes BlobRow)
release fails none blobs = ok (none, blobs)
release fails (some o) blobs = do
  (orphan, blobs') ← decref_blob fails o.sha256 blobs
  ok ((if orphan then some o.sha256 else none), blobs')

abbrev pub encode : Env → Metadata → Result Bytes
encode env [] = ok empty_json
encode env (kv ∷ m) = elim (env.marshal (kv ∷ m)) [ none ↦ err call_failed | some json ↦ ok json ]

abbrev pub new_row : Env → ℕ → Writer → ℤ → PutOptions → Bytes → ObjectRow
new_row env now w generation opts json = record {
  generation = generation;
  metageneration = pos 1;
  sha256 = env.sha256_hex w.sha;
  size = w.size;
  md5 = env.md5_sum w.md5h;
  crc32c = env.crc32c_sum w.crc;
  content_type = opts.content_type;
  metadata = json;
  created = now / 1000;
  updated = now / 1000;
}

abbrev pub new_info : Env → ℕ → Writer → Bytes → Bytes → ℤ → PutOptions → ObjectInfo
new_info env now w bucket name generation opts = record {
  bucket = bucket;
  name = name;
  generation = generation;
  metageneration = pos 1;
  size = w.size;
  sha256 = env.sha256_hex w.sha;
  md5 = env.md5_sum w.md5h;
  crc32c = env.crc32c_sum w.crc;
  content_type = opts.content_type;
  metadata = opts.metadata;
  created = now;
  updated = now;
}

-- The transaction of `Commit`: the new object, the orphaned blob if there is one, the tables.
unfoldable pub commit_rows :
    Env
    → Faults
    → ℕ
    → Writer
    → Bytes
    → Bytes
    → PutOptions
    → Tables
    → Result (ObjectInfo × Option Bytes × Tables)
unfolding select
commit_rows env fails now w bucket name opts t = do
  existing ← select env fails bucket name t
  or_fail (check opts.conditions existing)
  let generation = next_generation now existing
  unless (fails insert_blob) call_failed
  (orphan, blobs) ← release fails existing (incref_blob (env.sha256_hex w.sha) w.size t.blobs)
  json ← encode env opts.metadata
  unless (fails insert_object) call_failed
  unless (fails commit_tx) call_failed
  ok (
    new_info env now w bucket name generation opts,
    orphan,
    record { objects = put name (new_row env now w generation opts json) t.objects; blobs = blobs },
  )

abbrev pub remove_orphan : Faults → Option Bytes → Dict FilePath Bytes → Dict FilePath Bytes
remove_orphan fails none files = files
remove_orphan fails (some sha) files = discard (fails remove_blob) (blob_path sha) files

abbrev pub commit_end :
    Faults → Bucket → Result (ObjectInfo × Option Bytes × Tables) → Result ObjectInfo × Bucket
commit_end fails b (err e) = (err e, b)
commit_end fails b (ok (found, orphan, t)) =
    (ok found, record b { tables = t; files = remove_orphan fails orphan b.files })

-- What `Commit` does while it holds the lock, once the blob file is installed.
unfoldable pub commit_installed :
    Env
    → Faults
    → ℕ
    → Writer
    → Bytes
    → PutOptions
    → Bucket
    → Result (Dict FilePath Bytes)
    → Result ObjectInfo × Bucket
commit_installed env fails now w name opts b (err e) = (err e, b)
commit_installed env fails now w name opts b (ok files) =
    if fails begin
    then (err call_failed, record b { files = files })
    else commit_end fails (record b { files = files })
        (commit_rows env fails now w b.name name opts b.tables)

-- `Commit` up to its deferred removal of the temporary file.
unfoldable pub commit_body :
    Env → Faults → ℕ → Writer → Bytes → PutOptions → Bucket → Result ObjectInfo × Bucket
commit_body env fails now w name opts b =
    if not (valid_object_name name)
    then (err invalid_name, b)
    else if fails sync
    then (err call_failed, b)
    else if fails close
    then (err call_failed, b)
    else commit_installed env fails now w name opts b
        (install fails w.temp_name (env.sha256_hex w.sha) b.files)

unfoldable pub commit :
    Env → Faults → ℕ → Bytes → PutOptions → Writer → Bucket → Result ObjectInfo × Writer × Bucket
commit env fails now name opts w b =
    if w.done
    then (err finished, w, b)
    else let (result, b') = commit_body env fails now w name opts b in
      (
        result,
        record w { done = true },
        record b' { files = discard (fails remove_temp) (temp w.temp_name) b'.files },
      )
