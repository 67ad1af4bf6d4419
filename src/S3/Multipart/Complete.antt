-- ===== src/S3/Multipart/Complete.antt =====
-- pkg/s3/multipart.go: the completion of an upload, whose parts become one object.
use objectstorage.Prelude.{
  ℕ, Option, none, some, Bool, true, false, not, ◌&&◌, if◌then◌else◌, List, [], ◌∷◌, length,
}
use objectstorage.Prelude.Bytes.{Bytes, codes, bytes_eq, bytes_Eq}
use objectstorage.Prelude.Dict.{Dict, get}
use objectstorage.Prelude.Int.{ℤ, ◌<ℤ◌}
use objectstorage.Store.Types.{Error, call_failed, Result, ok, err, ObjectInfo, PutOptions}
use objectstorage.Store.Bucket.{temp, path_Eq, Bucket}
use objectstorage.Store.Writer.{Writer, new_blob_writer, abort, commit}
use objectstorage.Store.Writer.Copy.{copy}
use objectstorage.Store.Buckets.{Store, within}
use objectstorage.Http.{Request, query_get, pieces_of}
use objectstorage.Http.Text.{trim, hex_encode}
use objectstorage.S3.Body.{Host, with_writes, no_conditions, etag_for, object_resource}
use objectstorage.S3.Xml.{
  Message, fixed, of_error, of_decoder, part_missing, part_mismatch, CompletedPart, complete_body,
  Response, write_xml, write_s3_error, write_store_error,
}
use objectstorage.S3.Multipart.{
  ℤ_Eq, StagedPart, MultipartUpload, Server, lookup_upload, missing, no_such_upload, finish_upload,
}

-- `sort.SliceIsSorted` by the part numbers: none is less than the one before it.
unfoldable pub is_sorted : List CompletedPart → Bool
is_sorted [] = true
is_sorted (p ∷ []) = true
is_sorted (p ∷ q ∷ parts) = not (q.part_number <ℤ p.part_number) && is_sorted (q ∷ parts)

-- The staged parts that the request names, or what is wrong with one.
pub data Checked : Type 0 where
  refused_part : Message → Checked
  found_parts : List StagedPart → Checked

abbrev pub with_part : StagedPart → Checked → Checked
with_part part (refused_part m) = refused_part m
with_part part (found_parts parts) = found_parts (part ∷ parts)

-- An ETag, with or without its quotes, must be that of the part, if one is given.
abbrev pub check_part : CompletedPart → Option StagedPart → Checked → Checked
check_part p none rest = refused_part (part_missing p.part_number)
check_part p (some part) rest =
    let want = trim 34 p.etag in
    if not (bytes_eq want []) && not (bytes_eq want (hex_encode part.md5))
    then refused_part (part_mismatch p.part_number)
    else with_part part rest

unfoldable pub check_parts : Dict ℤ StagedPart → List CompletedPart → Checked
check_parts staged [] = found_parts []
check_parts staged (p ∷ parts) = check_part p (get p.part_number staged) (check_parts staged parts)

-- The copy of one staged file into the writer; `n` parts are left.
abbrev pub copy_file :
    Host → ℕ → Option Bytes → Writer → Bucket → Result (Unit {0}) × Writer × Bucket
copy_file host n none w b = (err call_failed, w, b)
copy_file host n (some file) w b =
    if host.open_fails n
    then (err call_failed, w, b)
    else copy (with_writes host.stored (pieces_of host.buffer host.pick file)) (host.file_breaks n)
        w b

abbrev pub go_on :
    Result (Unit {0})
    → Result (Unit {0}) × Writer × Bucket
    → Writer
    → Bucket
    → Result (Unit {0}) × Writer × Bucket
go_on (err e) rest w b = (err e, w, b)
go_on (ok done) rest w b = rest

unfoldable pub copy_parts :
    Host → List StagedPart → Writer → Bucket → Result (Unit {0}) × Writer × Bucket
copy_parts host [] w b = (ok tt, w, b)
copy_parts host (part ∷ parts) w b =
    let (result, w', b') = copy_file host (length parts) (get (temp part.temp_name) b.files) w b in
    go_on result (copy_parts host parts w' b') w' b'

-- Where an assembly that has started ends: a copy fails, or the commit is done.
pub data Assembly : Type 0 where
  not_copied : Error → Assembly
  assembled : ObjectInfo → Assembly

abbrev pub committed : Result ObjectInfo → Result Assembly
committed (err e) = err e
committed (ok info) = ok (assembled info)

abbrev pub parts_copied :
    Host → Bytes → PutOptions → Result (Unit {0}) × Writer × Bucket → Result Assembly × Bucket
parts_copied host key opts (err e, w, b) = (ok (not_copied e), (abort (host.fails 0) w b).1)
parts_copied host key opts (ok done, w, b) =
    let (result, w', b') = commit host.env (host.fails 0) host.now key opts w b in
    (committed result, b')

abbrev pub parts_started :
    Host → Bytes → List StagedPart → PutOptions → Result Writer × Bucket → Result Assembly × Bucket
parts_started host key parts opts (err e, b) = (err e, b)
parts_started host key parts opts (ok w, b) = parts_copied host key opts (copy_parts host parts w b)

-- From `NewBlobWriter` to `Commit`.
unfoldable pub assemble :
    Host → Bytes → List StagedPart → PutOptions → Bucket → Result Assembly × Bucket
assemble host key parts opts b =
    parts_started host key parts opts (new_blob_writer (host.fails 0) host.temp_name b)

abbrev pub upload_options : MultipartUpload → PutOptions
upload_options up = record {
  content_type = up.content_type;
  metadata = up.metadata;
  conditions = no_conditions;
}

abbrev pub complete_assembled :
    Host
    → Bytes
    → Bytes
    → Bytes
    → MultipartUpload
    → Server
    → Result Assembly × Store
    → Response × Server
complete_assembled host bucket key id up s (err e, st) =
    (write_store_error e (object_resource bucket key), record s { store = st })
complete_assembled host bucket key id up s (ok (not_copied e), st) = (
  write_s3_error 500 (codes "InternalError") (of_error e) (object_resource bucket key),
  record s { store = st },
)
complete_assembled host bucket key id up s (ok (assembled info), st) = (
  write_xml 200 (
      complete_body (record {
        location = object_resource bucket key;
        bucket = bucket;
        key = key;
        etag = etag_for info;
      })),
  finish_upload host id up (record s { store = st }),
)

abbrev pub complete_checked :
    Host → Bytes → Bytes → Bytes → MultipartUpload → Server → Checked → Response × Server
complete_checked host bucket key id up s (refused_part m) =
    (write_s3_error 400 (codes "InvalidPart") m (object_resource bucket key), s)
complete_checked host bucket key id up s (found_parts parts) =
    complete_assembled host bucket key id up s
      (within (host.fails 0) host.now bucket (assemble host key parts (upload_options up)) s.store)

abbrev pub is_nil : List CompletedPart → Bool
is_nil [] = true
is_nil (p ∷ parts) = false

abbrev pub complete_decoded :
    Host
    → Bytes
    → Bytes
    → Bytes
    → MultipartUpload
    → Server
    → Option (List CompletedPart)
    → Response × Server
complete_decoded host bucket key id up s none =
    (write_s3_error 400 (codes "MalformedXML") of_decoder (object_resource bucket key), s)
complete_decoded host bucket key id up s (some parts) =
    if is_nil parts
    then (
      write_s3_error 400 (codes "InvalidRequest") (fixed (codes "no parts specified"))
          (object_resource bucket key),
      s,
    )
    else if not (is_sorted parts)
    then (
      write_s3_error 400 (codes "InvalidPartOrder")
          (fixed (codes "The list of parts was not in ascending order."))
          (object_resource bucket key),
      s,
    )
    else if up.done
    then (no_such_upload (codes "upload already completed") bucket key, s)
    else complete_checked host bucket key id up s (check_parts up.parts parts)

abbrev pub complete_found :
    Host → Request → Bytes → Bytes → Option MultipartUpload → Server → Response × Server
complete_found host r bucket key none s = (missing bucket key, s)
complete_found host r bucket key (some up) s =
    complete_decoded host bucket key (query_get (codes "uploadId") r) up s
      (host.decode_complete r.body r.broken)

unfoldable pub complete_multipart_upload :
    Host → Request → Bytes → Bytes → Server → Response × Server
complete_multipart_upload host r bucket key s =
    complete_found host r bucket key (lookup_upload r bucket key s) s
