-- ===== src/Store/Bucket.antt =====
-- pkg/store/bucket.go: a bucket's database, its files, and reading and deleting objects. The two
-- tables that change are `Dict`s by their primary keys; a transaction works on a copy of them, which
-- is put back by its commit and dropped by a rollback. Every call of the operating system and of
-- the database may fail, as the argument `fails` says.
pub mod Blobs
pub mod Invariant
pub mod Delete
pub mod Deleted
pub mod Readable
use objectstorage.Prelude.{
  ℕ, ◌+◌, ◌-◌, ◌*◌, Option, none, some, Bool, true, false, not, ◌&&◌, ◌||◌, if◌then◌else◌, leb,
  List, [], take, ◌≡◌, ◌↔◌, refl, arith, Eq,
}
use objectstorage.Prelude.Bytes.{Bytes, codes, bytes_eq, bytes_eq_iff, bytes_Eq}
use objectstorage.Prelude.Dict.{Dict, get, put, remove}
use objectstorage.Prelude.Int.{ℤ}
use objectstorage.Store.Types.{
  Error, object_not_found, call_failed, corrupt_metadata, Result, ok, err, ◌>>=◌, ◌>>◌, unless,
  Metadata, Env, BucketInfo, ObjectInfo, Conditions,
}
use objectstorage.Store.Conditions.{check}

-- `<dir>/tmp/<name>` and `<dir>/objects/<hh>/<name>`
pub data FilePath : Type 0 where
  temp : Bytes → FilePath
  object : Bytes → Bytes → FilePath

abbrev pub path_eq : FilePath → FilePath → Bool
path_eq (temp a) (temp b) = bytes_eq a b
path_eq (temp a) (object d b) = false
path_eq (object c a) (temp b) = false
path_eq (object c a) (object d b) = bytes_eq c d && bytes_eq a b

pub path_eq_iff : (p q : FilePath) → (path_eq p q ≡ true) ↔ (p ≡ q)
path_eq_iff (temp a) (temp b) = ground (arith, bytes_eq_iff a b)
path_eq_iff (temp a) (object d b) = ground arith
path_eq_iff (object c a) (temp b) = ground arith
path_eq_iff (object c a) (object d b) = ground (arith, bytes_eq_iff c d, bytes_eq_iff a b)

instance abbrev pub path_Eq : Eq FilePath
path_Eq = record { beq = path_eq; beq_iff = path_eq_iff }

unfoldable pub blob_path : Bytes → FilePath
blob_path sha256_hex = object (take 2 sha256_hex) sha256_hex

-- A row of the table `objects` without its key; times are in microseconds, the metadata is JSON.
pub record ObjectRow : Type 0 where
  pub generation : ℤ
  pub metageneration : ℤ
  pub sha256 : Bytes
  pub size : ℕ
  pub md5 : Bytes
  pub crc32c : ℕ
  pub content_type : Bytes
  pub metadata : Bytes
  pub created : ℕ
  pub updated : ℕ

-- A row of the table `blobs` without its key.
pub record BlobRow : Type 0 where
  pub size : ℕ
  pub refcount : ℕ

-- The one row of the table `bucket_info`.
pub record InfoRow : Type 0 where
  pub created : ℕ
  pub metageneration : ℤ

pub record Tables : Type 0 where
  pub objects : Dict Bytes ObjectRow
  pub blobs : Dict Bytes BlobRow

pub record Bucket : Type 0 where
  pub name : Bytes
  pub bucket_info : InfoRow
  pub tables : Tables
  pub open tables use *
  pub files : Dict FilePath Bytes

-- The calls that may fail.
pub data Call : Type 0 where
  create_temp sync close stat mkdir rename open_blob remove_temp remove_blob : Call
  begin select_object insert_blob update_blob select_blob delete_blob : Call
  insert_object remove_object commit_tx query : Call
  make_root read_root make_dir make_objects make_tmp stat_db remove_all : Call
  open_db exec_schema insert_info select_info count_objects close_db : Call

abbrev pub Faults : Type 0
Faults = Call → Bool

abbrev pub no_faults : Faults
no_faults call = false

unfoldable pub info : Bucket → BucketInfo
info b = record {
  name = b.name;
  created = b.bucket_info.created * 1000;
  metageneration = b.bucket_info.metageneration;
}

abbrev pub empty_json : Bytes
empty_json = codes "{}"

-- `json.Unmarshal` into a nil map
abbrev decode : Option Metadata → Result Metadata
decode none = err corrupt_metadata
decode (some m) = ok m

abbrev pub read_metadata : Env → Bytes → Result Metadata
read_metadata env json =
    if bytes_eq json [] || bytes_eq json empty_json then ok [] else decode (env.unmarshal json)

unfoldable pub scan_object : Env → Bytes → Bytes → ObjectRow → Result ObjectInfo
scan_object env bucket name row = do
  metadata ← read_metadata env row.metadata
  ok (record {
    bucket = bucket;
    name = name;
    generation = row.generation;
    metageneration = row.metageneration;
    size = row.size;
    sha256 = row.sha256;
    md5 = row.md5;
    crc32c = row.crc32c;
    content_type = row.content_type;
    metadata = metadata;
    created = row.created * 1000;
    updated = row.updated * 1000;
  })

abbrev scan_row : Env → Bytes → Bytes → Option ObjectRow → Result (Option ObjectInfo)
scan_row env bucket name none = ok none
scan_row env bucket name (some row) = do found ← scan_object env bucket name row; ok (some found)

-- `SELECT … FROM objects WHERE name = ?`, with `sql.ErrNoRows` as `none`
unfoldable pub select : Env → Faults → Bytes → Bytes → Tables → Result (Option ObjectInfo)
unfolding scan_object
select env fails bucket name t =
    if fails select_object then err call_failed else scan_row env bucket name (get name t.objects)

abbrev pub or_not_found : Option ObjectInfo → Result ObjectInfo
or_not_found none = err object_not_found
or_not_found (some found) = ok found

unfoldable pub get_object : Env → Faults → Bytes → Bucket → Result ObjectInfo
unfolding select
get_object env fails name b = do found ← select env fails b.name name b.tables; or_not_found found

abbrev open_file : Faults → FilePath → Bucket → Result Bytes
open_file fails path b =
    if fails open_blob
    then err call_failed
    else elim (get path b.files) [ none ↦ err call_failed | some content ↦ ok content ]

-- The file handle is the content that it reads.
unfoldable pub open_object : Env → Faults → Bytes → Bucket → Result (ObjectInfo × Bytes)
unfolding get_object blob_path
open_object env fails name b = do
  found ← get_object env fails name b
  content ← open_file fails (blob_path found.sha256) b
  ok (found, content)

-- `UPDATE blobs SET refcount = refcount - 1 WHERE sha256 = ?`
unfoldable pub decrement : Bytes → Dict Bytes BlobRow → Dict Bytes BlobRow
decrement sha blobs = elim (get sha blobs) [
  | none ↦ blobs
  | some row ↦ put sha (record row { refcount = row.refcount - 1 }) blobs
]

-- What follows the `SELECT refcount`: the row goes when its count has reached zero.
abbrev collect :
    Faults → Bytes → Dict Bytes BlobRow → Option BlobRow → Result (Bool × Dict Bytes BlobRow)
collect fails sha blobs none = ok (false, blobs)
collect fails sha blobs (some row) =
    if leb row.refcount 0
    then (if fails delete_blob then err call_failed else ok (true, remove sha blobs))
    else ok (false, blobs)

unfoldable pub decref_blob :
    Faults → Bytes → Dict Bytes BlobRow → Result (Bool × Dict Bytes BlobRow)
unfolding decrement
decref_blob fails sha blobs =
    if fails update_blob
    then err call_failed
    else if fails select_blob
    then err call_failed
    else collect fails sha (decrement sha blobs) (get sha (decrement sha blobs))

-- `os.Remove`, whose error is ignored
abbrev pub discard : Bool → FilePath → Dict FilePath Bytes → Dict FilePath Bytes
discard failed path files = if failed then files else remove path files

abbrev pub or_fail : Option Error → Result (Unit {0})
or_fail none = ok tt
or_fail (some e) = err e

-- The transaction of `DeleteObject`: the deleted object, whether its blob is orphaned, the tables.
unfoldable pub delete_tx :
    Env → Faults → Bytes → Bytes → Conditions → Tables → Result (ObjectInfo × Bool × Tables)
unfolding select
delete_tx env fails bucket name conds t = do
  existing ← select env fails bucket name t
  or_fail (check conds existing)
  found ← or_not_found existing
  unless (fails remove_object) call_failed
  (orphan, blobs) ← decref_blob fails found.sha256 t.blobs
  unless (fails commit_tx) call_failed
  ok (found, orphan, record { objects = remove name t.objects; blobs = blobs })

abbrev pub delete_end :
    Faults → Bucket → Result (ObjectInfo × Bool × Tables) → Result (Unit {0}) × Bucket
delete_end fails b (err e) = (err e, b)
delete_end fails b (ok (found, orphan, t)) = (
  ok tt,
  record b {
    tables = t;
    files =
        if orphan then discard (fails remove_blob) (blob_path found.sha256) b.files else b.files;
  },
)

unfoldable pub delete_object :
    Env → Faults → Bytes → Conditions → Bucket → Result (Unit {0}) × Bucket
delete_object env fails name conds b =
    if fails begin
    then (err call_failed, b)
    else delete_end fails b (delete_tx env fails b.name name conds b.tables)
