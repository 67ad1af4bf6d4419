-- ===== src/S3/Objects.antt =====
-- pkg/s3/objects.go: the handlers of the requests on objects, but for the listing.
pub mod ReadBack
pub mod Kept
pub mod Copies
use objectstorage.Prelude.{
  ℕ, Option, none, some, Bool, true, false, not, ◌&&◌, ◌||◌, if◌then◌else◌, List, [], ◌∷◌, ◌++◌,
  length, arith,
}
use objectstorage.Prelude.Bytes.{Bytes, codes, bytes_eq, bytes_Eq}
use objectstorage.Prelude.Dict.{Dict, put}
use objectstorage.Store.Types.{
  Error, object_not_found, Result, ok, err, Metadata, ObjectInfo, Conditions, PutOptions,
}
use objectstorage.Store.Buckets.{Store}
use objectstorage.Store.Objects.{open_object_in, put_object_in, delete_object_in}
use objectstorage.Http.{
  Method, head_method, get_method, put_method, post_method, delete_method, other_method, Request,
  header_get, pieces_of,
}
use objectstorage.Http.Text.{to_lower, trim_prefix, equal_fold, path_unescape, cut_at}
use objectstorage.S3.Body.{
  Host, request_body, with_writes, etag_for, metadata_from_headers, no_conditions, put_options,
  object_resource, bucket_resource,
}
use objectstorage.S3.Xml.{
  Message, fixed, of_error, of_decoder, of_source, DeleteRequest, DeleteError, DeleteResult, Body,
  empty_body, copy_body, delete_body, Response, reply, serve_content, aborted, write_xml,
  write_s3_error, write_store_error, status_for_store_error,
}

abbrev pub put_response : Bytes → Result ObjectInfo → Response
put_response resource (err e) = write_store_error e resource
put_response resource (ok info) = reply 200 ((codes "etag", etag_for info) ∷ []) empty_body

unfoldable pub put_object : Host → Request → Bytes → Bytes → Store → Response × Store
put_object host r bucket key st =
    let (pieces, broken) = request_body host r in
    let (result, st') =
      put_object_in host.env (host.fails 0) host.now bucket host.temp_name key
        (with_writes host.stored pieces) broken (put_options r) st in
    (put_response (object_resource bucket key) result, st')

-- `h.Set`
abbrev pub set_header : Bytes → Bytes → Dict Bytes Bytes → Dict Bytes Bytes
set_header name v h = put (to_lower name) v h

unfoldable pub set_metadata : Metadata → Dict Bytes Bytes → Dict Bytes Bytes
set_metadata [] h = h
set_metadata ((k, v) ∷ md) h = set_metadata md (set_header (codes "x-amz-meta-" ++ k) v h)

unfoldable pub object_headers : ObjectInfo → Dict Bytes Bytes
object_headers info = set_metadata info.metadata (
    set_header (codes "etag") (etag_for info) (
      set_header (codes "content-type")
        (if bytes_eq info.content_type []
          then codes "application/octet-stream"
          else info.content_type)
        []))

abbrev pub is_head : Method → Bool
is_head head_method = true
is_head _ = false

abbrev pub get_response : Method → Bytes → Result (ObjectInfo × Bytes) → Response
get_response method resource (err e) =
    if is_head method
    then reply (status_for_store_error e) [] empty_body
    else write_store_error e resource
get_response method resource (ok (info, content)) =
    serve_content (object_headers info) info.updated content

unfoldable pub get_object : Host → Request → Bytes → Bytes → Store → Response × Store
get_object host r bucket key st =
    let (result, st') = open_object_in host.env (host.fails 0) host.now bucket key st in
    (get_response r.method (object_resource bucket key) result, st')

-- That there is no object to delete is no error.
abbrev pub failure : Result (Unit {0}) → Option Error
failure (ok done) = none
failure (err object_not_found) = none
failure (err e) = some e

abbrev pub delete_response : Bytes → Option Error → Response
delete_response resource none = reply 204 [] empty_body
delete_response resource (some e) = write_store_error e resource

unfoldable pub delete_object : Host → Request → Bytes → Bytes → Store → Response × Store
delete_object host r bucket key st =
    let (result, st') =
      delete_object_in host.env (host.fails 0) host.now bucket key no_conditions st in
    (delete_response (object_resource bucket key) (failure result), st')

abbrev pub report : Bool → Bytes → Option Error → DeleteResult → DeleteResult
report quiet key (some e) resp = record resp {
  errors =
      resp.errors ++ record { key = key; code = codes "InternalError"; message = of_error e } ∷ [];
}
report quiet key none resp =
    if quiet then resp else record resp { deleted = resp.deleted ++ key ∷ [] }

-- The loop over the keys of the request.
unfoldable pub delete_keys :
    Host → Bool → Bytes → List Bytes → DeleteResult → Store → DeleteResult × Store
delete_keys host quiet bucket [] resp st = (resp, st)
delete_keys host quiet bucket (key ∷ keys) resp st =
    let (result, st') =
      delete_object_in host.env (host.fails (length keys)) host.now bucket key no_conditions st in
    delete_keys host quiet bucket keys (report quiet key (failure result) resp) st'

abbrev pub delete_decoded : Host → Bytes → Option DeleteRequest → Store → Response × Store
delete_decoded host bucket none st =
    (write_s3_error 400 (codes "MalformedXML") of_decoder (bucket_resource bucket), st)
delete_decoded host bucket (some req) st =
    let (resp, st') =
      delete_keys host req.quiet bucket req.objects (record { deleted = []; errors = [] }) st in
    (write_xml 200 (delete_body resp), st')

unfoldable pub delete_objects : Host → Request → Bytes → Store → Response × Store
delete_objects host r bucket st = delete_decoded host bucket (host.decode_delete r.body r.broken) st

-- A bucket and a key, neither of them empty; `none` is an error.
abbrev pub both_given : Option (Bytes × Bytes) → Option (Bytes × Bytes)
both_given none = none
both_given (some (bucket, key)) =
    if bytes_eq bucket [] || bytes_eq key [] then none else some (bucket, key)

abbrev pub cut_source : Option Bytes → Option (Bytes × Bytes)
cut_source none = none
cut_source (some s) = both_given (cut_at b'/' s)

unfoldable pub parse_copy_source : Bytes → Option (Bytes × Bytes)
parse_copy_source src = cut_source (path_unescape (trim_prefix src (codes "/")))

unfoldable pub copy_options : Request → ObjectInfo → PutOptions
copy_options r source =
    if equal_fold (header_get (codes "x-amz-metadata-directive") r) (codes "replace")
    then record {
      content_type = header_get (codes "content-type") r;
      metadata = metadata_from_headers r.headers [];
      conditions = no_conditions;
    }
    else record {
      content_type = source.content_type;
      metadata = source.metadata;
      conditions = no_conditions;
    }

abbrev pub copy_response : Host → Bytes → Result ObjectInfo → Response
copy_response host resource (err e) = write_store_error e resource
copy_response host resource (ok info) =
    write_xml 200
      (copy_body (record { etag = etag_for info; last_modified = host.iso8601 info.updated }))

abbrev pub copy_opened :
    Host → Request → Bytes → Bytes → Bytes → Result (ObjectInfo × Bytes) × Store → Response × Store
copy_opened host r source_resource bucket key (err e, st) =
    (write_store_error e source_resource, st)
copy_opened host r source_resource bucket key (ok (source, content), st) =
    let (result, st') =
      put_object_in host.env (host.fails 1) host.now bucket host.temp_name key
        (with_writes host.stored (pieces_of host.buffer host.pick content)) (host.file_breaks 0)
        (copy_options r source) st in
    (copy_response host (object_resource bucket key) result, st')

abbrev pub copy_from :
    Host → Request → Option (Bytes × Bytes) → Bytes → Bytes → Store → Response × Store
copy_from host r none bucket key st =
    (write_s3_error 400 (codes "InvalidArgument") of_source (object_resource bucket key), st)
copy_from host r (some (source_bucket, source_key)) bucket key st =
    copy_opened host r (object_resource source_bucket source_key) bucket key
      (open_object_in host.env (host.fails 0) host.now source_bucket source_key st)

unfoldable pub copy_object : Host → Request → Bytes → Bytes → Store → Response × Store
copy_object host r bucket key st =
    copy_from host r (parse_copy_source (header_get (codes "x-amz-copy-source") r)) bucket key st
