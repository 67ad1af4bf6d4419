-- ===== src/S3/Multipart.antt =====
-- pkg/s3/multipart.go: uploads in parts. The parts are staged as files of the bucket's directory `tmp`,
-- under names of their own. An upload that has been taken out of the map is still there for a handler
-- that has looked it up before: `uploads` has them all, `current` the identifiers in the map.
pub mod Complete
pub mod Assembly
pub mod Kept
pub mod Completed
pub mod ReadBack
pub mod Opens
pub mod Served
pub mod Succeeds
pub mod Ends
pub mod Files
pub mod Staged
use objectstorage.Prelude.{
  ℕ, ◌+◌, Option, none, some, Bool, true, false, not, ◌&&◌, ◌||◌, if◌then◌else◌, ltb, List, [], ◌∷◌,
  ◌++◌, length, take, Eq, arith,
}
use objectstorage.Prelude.Bytes.{Bytes, codes, bytes_eq, bytes_Eq}
use objectstorage.Prelude.Dict.{Dict, get, put, remove}
use objectstorage.Prelude.Int.{ℤ, pos, ◌≤ℤ◌, ◌<ℤ◌, ◌==ℤ◌, ==ℤ_iff}
use objectstorage.Store.Types.{
  Error, call_failed, Result, ok, err, Metadata, ObjectInfo, PutOptions, BucketInfo,
}
use objectstorage.Store.Bucket.{FilePath, temp, path_Eq, Bucket, close, remove_temp, discard}
use objectstorage.Store.Buckets.{Store, ready, directory, content, get_bucket}
use objectstorage.Store.Objects.{temp_file}
use objectstorage.Http.{Request, query_get, header_get}
use objectstorage.Http.Text.{atoi}
use objectstorage.S3.Body.{
  Host, request_body, with_writes, metadata_from_headers, quoted, bucket_resource, object_resource,
}
use objectstorage.Http.Text.{hex_encode}
use objectstorage.S3.Xml.{
  Message, fixed, of_error, empty_body, initiate_body, Response, reply, write_xml, write_s3_error,
  write_store_error,
}

instance abbrev pub ℤ_Eq : Eq ℤ
ℤ_Eq = record { beq = λ a b. a ==ℤ b; beq_iff = ==ℤ_iff }

-- `temp_name` is the last element of its path.
pub record StagedPart : Type 0 where
  pub temp_name : Bytes
  pub size : ℕ
  pub md5 : Bytes

pub record MultipartUpload : Type 0 where
  pub bucket : Bytes
  pub key : Bytes
  pub content_type : Bytes
  pub metadata : Metadata
  pub parts : Dict ℤ StagedPart
  pub done : Bool

pub record Server : Type 0 where
  pub store : Store
  pub uploads : Dict Bytes MultipartUpload
  pub current : Dict Bytes (Unit {0})

-- A change to the files of a bucket, which are there whether its handle is open or not.
abbrev pub edited :
    Bytes → (Dict FilePath Bytes → Dict FilePath Bytes) → Store → Option Bucket → Store
edited name f st none = st
edited name f st (some b) = record st {
  entries = put name (directory (ready (record b { files = f b.files }))) st.entries;
}

unfoldable pub edit_files : Bytes → (Dict FilePath Bytes → Dict FilePath Bytes) → Store → Store
edit_files name f st = edited name f st (content name st)

-- `os.Remove` of a staged part; whether it fails is ignored.
unfoldable pub remove_part : Host → Bytes → StagedPart → Store → Store
remove_part host bucket part st =
    edit_files bucket (discard (host.fails 0 remove_temp) (temp part.temp_name)) st

unfoldable pub remove_parts : Host → Bytes → Dict ℤ StagedPart → Store → Store
remove_parts host bucket [] st = st
remove_parts host bucket ((number, part) ∷ parts) st =
    remove_parts host bucket parts (remove_part host bucket part st)

abbrev pub initiated :
    Host → Request → Bytes → Bytes → Server → Result BucketInfo × Store → Response × Server
initiated host r bucket key s (err e, st) =
    (write_store_error e (bucket_resource bucket), record s { store = st })
initiated host r bucket key s (ok info, st) = (
  write_xml 200 (
      initiate_body (record { bucket = bucket; key = key; upload_id = hex_encode host.upload_id })),
  record {
    store = st;
    uploads =
        put (hex_encode host.upload_id)
          (record {
            bucket = bucket;
            key = key;
            content_type = header_get (codes "content-type") r;
            metadata = metadata_from_headers r.headers [];
            parts = [];
            done = false;
          })
          s.uploads;
    current = put (hex_encode host.upload_id) tt s.current;
  },
)

unfoldable pub initiate_multipart_upload :
    Host → Request → Bytes → Bytes → Server → Response × Server
initiate_multipart_upload host r bucket key s =
    initiated host r bucket key s (get_bucket (host.fails 0) host.now bucket s.store)

abbrev pub no_such_upload : Bytes → Bytes → Bytes → Response
no_such_upload message bucket key =
    write_s3_error 404 (codes "NoSuchUpload") (fixed message) (object_resource bucket key)

abbrev pub belongs : Bytes → Bytes → Option MultipartUpload → Option MultipartUpload
belongs bucket key none = none
belongs bucket key (some up) =
    if bytes_eq up.bucket bucket && bytes_eq up.key key then some up else none

abbrev pub in_map : Option (Unit {0}) → Option MultipartUpload → Option MultipartUpload
in_map none up = none
in_map (some present) up = up

-- `none` where the request is answered that there is no such upload.
unfoldable pub lookup_upload : Request → Bytes → Bytes → Server → Option MultipartUpload
lookup_upload r bucket key s =
    let id = query_get (codes "uploadId") r in
    belongs bucket key (in_map (get id s.current) (get id s.uploads))

abbrev pub missing : Bytes → Bytes → Response
missing bucket key = no_such_upload (codes "The specified upload does not exist.") bucket key

-- The copy of a body into a staged file, given each piece with what the write of it stores: the file.
unfoldable pub copy_part : List (Bytes × ℕ) → Bool → Bytes → Result (Unit {0}) × Bytes
copy_part [] broken file = ((if broken then err call_failed else ok tt), file)
copy_part ((p, n) ∷ chunks) broken file =
    let rest = copy_part chunks broken (file ++ p) in
    if ltb n (length p) then (err call_failed, file ++ take n p) else rest

-- The file is written, and taken away again where the copy or the closing fails.
abbrev pub staged_file :
    Host → Bytes → Result (Unit {0}) × Bytes → Store → Result StagedPart × Store
staged_file host bucket (err e, file) st = (
  err e,
  edit_files bucket (discard (host.fails 0 remove_temp) (temp host.temp_name))
      (edit_files bucket (put (temp host.temp_name) file) st),
)
staged_file host bucket (ok done, file) st =
    let st' = edit_files bucket (put (temp host.temp_name) file) st in
    if host.fails 0 close
    then (
      err call_failed,
      edit_files bucket (discard (host.fails 0 remove_temp) (temp host.temp_name)) st',
    )
    else (
      ok (record { temp_name = host.temp_name; size = length file; md5 = host.env.md5_sum file }),
      st',
    )

-- What follows the staging, under the upload's lock: a part that was uploaded before goes.
abbrev pub remove_previous : Host → Bytes → Option StagedPart → Store → Store
remove_previous host bucket none st = st
remove_previous host bucket (some part) st = remove_part host bucket part st

unfoldable pub attach_part :
    Host
    → Bytes
    → Bytes
    → Bytes
    → ℤ
    → StagedPart
    → Option MultipartUpload
    → Server
    → Response × Server
attach_part host bucket key id number part none s = (missing bucket key, s)
attach_part host bucket key id number part (some up) s =
    if up.done
    then (
      no_such_upload (codes "upload already completed") bucket key,
      record s { store = remove_part host bucket part s.store },
    )
    else (
      reply 200 ((codes "etag", quoted (hex_encode part.md5)) ∷ []) empty_body,
      record s {
        store = remove_previous host bucket (get number up.parts) s.store;
        uploads = put id (record up { parts = put number part up.parts }) s.uploads;
      },
    )

-- The part number, if it is one from 1 to 10000.
abbrev pub in_bounds : Option ℤ → Option ℤ
in_bounds none = none
in_bounds (some n) = if n <ℤ pos 1 || pos 10000 <ℤ n then none else some n

unfoldable pub part_number_of : Request → Option ℤ
part_number_of r = in_bounds (atoi (query_get (codes "partNumber") r))

abbrev pub part_staged :
    Host → Bytes → Bytes → Bytes → ℤ → Server → Result StagedPart × Store → Response × Server
part_staged host bucket key id number s (err e, st) = (
  write_s3_error 500 (codes "InternalError") (of_error e) (object_resource bucket key),
  record s { store = st },
)
part_staged host bucket key id number s (ok part, st) =
    attach_part host bucket key id number part (get id s.uploads) (record s { store = st })

abbrev pub part_created :
    Host
    → Request
    → Bytes
    → Bytes
    → Bytes
    → ℤ
    → Server
    → Result FilePath × Store
    → Response × Server
part_created host r bucket key id number s (err e, st) =
    (write_store_error e (object_resource bucket key), record s { store = st })
part_created host r bucket key id number s (ok path, st) =
    let (pieces, broken) = request_body host r in
    part_staged host bucket key id number s
      (staged_file host bucket (copy_part (with_writes host.stored pieces) broken []) st)

abbrev pub upload_numbered :
    Host → Request → Bytes → Bytes → Bytes → Option ℤ → Server → Response × Server
upload_numbered host r bucket key id none s = (
  write_s3_error 400 (codes "InvalidArgument") (fixed (codes "invalid partNumber"))
      (object_resource bucket key),
  s,
)
upload_numbered host r bucket key id (some number) s =
    part_created host r bucket key id number s
      (temp_file (host.fails 0) host.now bucket host.temp_name s.store)

abbrev pub upload_found :
    Host → Request → Bytes → Bytes → Option MultipartUpload → Server → Response × Server
upload_found host r bucket key none s = (missing bucket key, s)
upload_found host r bucket key (some up) s =
    upload_numbered host r bucket key (query_get (codes "uploadId") r) (part_number_of r) s

unfoldable pub upload_part : Host → Request → Bytes → Bytes → Server → Response × Server
upload_part host r bucket key s = upload_found host r bucket key (lookup_upload r bucket key s) s

-- `up.done = true`, `up.removePartsLocked()` and the removal from the map.
unfoldable pub finish_upload : Host → Bytes → MultipartUpload → Server → Server
finish_upload host id up s = record {
  store = remove_parts host up.bucket up.parts s.store;
  uploads = put id (record up { parts = []; done = true }) s.uploads;
  current = remove id s.current;
}

abbrev pub abort_found :
    Host → Bytes → Bytes → Bytes → Option MultipartUpload → Server → Response × Server
abort_found host bucket key id none s = (missing bucket key, s)
abort_found host bucket key id (some up) s = (reply 204 [] empty_body, finish_upload host id up s)

unfoldable pub abort_multipart_upload : Host → Request → Bytes → Bytes → Server → Response × Server
abort_multipart_upload host r bucket key s =
    abort_found host bucket key (query_get (codes "uploadId") r) (lookup_upload r bucket key s) s
