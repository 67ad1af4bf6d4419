-- ===== src/S3/Server.antt =====
-- pkg/s3/server.go: from a request to its handler.
pub mod Kept
pub mod Runs
use objectstorage.Prelude.{
  ℕ, Option, none, some, Bool, true, false, not, ◌&&◌, if◌then◌else◌, List, [], ◌∷◌,
}
use objectstorage.Prelude.Bytes.{Bytes, codes, bytes_eq}
use objectstorage.Store.Bucket.{Faults}
use objectstorage.Store.Buckets.{Store}
use objectstorage.Http.{
  Method, get_method, head_method, put_method, post_method, delete_method, other_method, Request,
  query_get, query_has, header_get,
}
use objectstorage.Http.Path.{split_path}
use objectstorage.Http.Text.{join_with}
use objectstorage.S3.Body.{Host, bucket_resource, object_resource}
use objectstorage.S3.Xml.{fixed, Response, write_s3_error}
use objectstorage.S3.Buckets.{
  list_buckets_handler, create_bucket_handler, head_bucket, delete_bucket_handler,
  get_bucket_location,
}
use objectstorage.S3.Objects.{put_object, get_object, delete_object, delete_objects, copy_object}
use objectstorage.S3.Listing.{list_objects_handler}
use objectstorage.S3.Multipart.{
  Server, initiate_multipart_upload, upload_part, abort_multipart_upload,
}
use objectstorage.S3.Multipart.Complete.{complete_multipart_upload}

unfoldable pub new_server : Store → Server
new_server st = record { store = st; uploads = []; current = [] }

-- A handler that leaves the uploads alone.
abbrev pub on_store : (Store → Response × Store) → Server → Response × Server
on_store handler s = let (resp, st) = handler s.store in (resp, record s { store = st })

abbrev pub not_allowed : Bytes → Response
not_allowed resource =
    write_s3_error 405 (codes "MethodNotAllowed") (fixed (codes "method not allowed")) resource

abbrev pub route_bucket : Host → Request → Bytes → Method → Server → Response × Server
route_bucket host r bucket post_method s =
    if query_has (codes "delete") r
    then on_store (delete_objects host r bucket) s
    else (not_allowed (bucket_resource bucket), s)
route_bucket host r bucket get_method s =
    if query_has (codes "location") r
    then on_store (get_bucket_location host bucket) s
    else on_store (list_objects_handler host r bucket) s
route_bucket host r bucket put_method s = on_store (create_bucket_handler host bucket) s
route_bucket host r bucket head_method s = on_store (head_bucket host bucket) s
route_bucket host r bucket delete_method s = on_store (delete_bucket_handler host bucket) s
route_bucket host r bucket other_method s = (not_allowed (bucket_resource bucket), s)

unfoldable pub handle_bucket : Host → Request → Bytes → Server → Response × Server
handle_bucket host r bucket s = route_bucket host r bucket r.method s

abbrev pub has_value : Bytes → Request → Bool
has_value name r = not (bytes_eq (query_get name r) [])

abbrev pub route_object : Host → Request → Bytes → Bytes → Method → Server → Response × Server
route_object host r bucket key put_method s =
    if has_value (codes "uploadId") r && has_value (codes "partNumber") r
    then upload_part host r bucket key s
    else if not (bytes_eq (header_get (codes "x-amz-copy-source") r) [])
    then on_store (copy_object host r bucket key) s
    else on_store (put_object host r bucket key) s
route_object host r bucket key post_method s =
    if query_has (codes "uploads") r
    then initiate_multipart_upload host r bucket key s
    else if has_value (codes "uploadId") r
    then complete_multipart_upload host r bucket key s
    else (not_allowed (object_resource bucket key), s)
route_object host r bucket key delete_method s =
    if has_value (codes "uploadId") r
    then abort_multipart_upload host r bucket key s
    else on_store (delete_object host r bucket key) s
route_object host r bucket key get_method s = on_store (get_object host r bucket key) s
route_object host r bucket key head_method s = on_store (get_object host r bucket key) s
route_object host r bucket key other_method s = (not_allowed (object_resource bucket key), s)

unfoldable pub handle_object : Host → Request → Bytes → Bytes → Server → Response × Server
handle_object host r bucket key s = route_object host r bucket key r.method s

abbrev pub is_get : Method → Bool
is_get get_method = true
is_get _ = false

-- By the segments of the path: none, a bucket, or a bucket and a key. `fails` is for the buckets of a
-- listing, `path` is the decoded path.
abbrev pub dispatch :
    Host → (Bytes → Faults) → Request → Bytes → Option (List Bytes) → Server → Response × Server
dispatch host fails r path none s =
    (write_s3_error 400 (codes "InvalidURI") (fixed (codes "invalid path encoding")) path, s)
dispatch host fails r path (some []) s =
    if is_get r.method
    then on_store (list_buckets_handler host fails) s
    else (not_allowed (codes "/"), s)
dispatch host fails r path (some (bucket ∷ [])) s = handle_bucket host r bucket s
dispatch host fails r path (some (bucket ∷ seg ∷ segs)) s =
    handle_object host r bucket (join_with b'/' (seg ∷ segs)) s

unfoldable pub serve_http : Host → (Bytes → Faults) → Request → Bytes → Server → Response × Server
serve_http host fails r path s = dispatch host fails r path (split_path r.escaped_path) s
