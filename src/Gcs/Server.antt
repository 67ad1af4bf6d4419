-- ===== src/Gcs/Server.antt =====
-- pkg/gcs/server.go: `handleStorageV1`, from the path behind /storage/v1/b to the handler.
pub mod Kept
use objectstorage.Prelude.{if◌then◌else◌, List, [], ◌∷◌, ◌++◌}
use objectstorage.Prelude.Bytes.{Bytes, codes, bytes_eq}
use objectstorage.Store.Buckets.{Store}
use objectstorage.Http.{
  Method, get_method, head_method, put_method, post_method, delete_method, other_method, Request,
  query_get,
}
use objectstorage.Http.Text.{join_with}
use objectstorage.Gcs.Resources.{Host, fixed, of_method, Response, write_error}
use objectstorage.Gcs.Objects.{get_object, delete_object, list_objects_handler, serve_media}
use objectstorage.Gcs.Buckets.{
  create_bucket_handler, get_bucket_handler, list_buckets_handler, delete_bucket_handler,
}

abbrev pub not_allowed : Response
not_allowed = write_error 405 (codes "invalid") (fixed (codes "method not allowed"))

abbrev pub not_implemented : Response
not_implemented = write_error 501 (codes "notImplemented") (fixed (codes "not implemented"))

-- The text names the method of the request.
abbrev pub not_supported : Response
not_supported = write_error 501 (codes "notImplemented") of_method

abbrev pub not_found : Response
not_found = write_error 404 (codes "notFound") (fixed (codes "not found"))

abbrev pub route_buckets : Host → Request → Method → Store → Response × Store
route_buckets host r get_method st = list_buckets_handler host st
route_buckets host r post_method st = create_bucket_handler host r st
route_buckets host r _ st = (not_allowed, st)

abbrev pub route_bucket : Host → Bytes → Method → Store → Response × Store
route_bucket host bucket get_method st = get_bucket_handler host bucket st
route_bucket host bucket delete_method st = delete_bucket_handler host bucket st
route_bucket host bucket _ st = (not_implemented, st)

abbrev pub route_objects : Host → Request → Bytes → Method → Store → Response × Store
route_objects host r bucket get_method st = list_objects_handler host r bucket st
route_objects host r bucket _ st = (not_allowed, st)

abbrev pub route_object : Host → Request → Bytes → Bytes → Method → Store → Response × Store
route_object host r bucket object get_method st =
    if bytes_eq (query_get (codes "alt") r) (codes "media")
    then serve_media host r bucket object st
    else get_object host r bucket object st
route_object host r bucket object delete_method st = delete_object host r bucket object st
route_object host r bucket object _ st = (not_supported, st)

-- `segs` is the path behind the segment `b`.
unfoldable pub handle_storage_v1 : Host → Request → List Bytes → Store → Response × Store
handle_storage_v1 host r [] st = route_buckets host r r.method st
handle_storage_v1 host r (bucket ∷ []) st = route_bucket host bucket r.method st
handle_storage_v1 host r (bucket ∷ o ∷ []) st =
    if bytes_eq o (codes "o") then route_objects host r bucket r.method st else (not_found, st)
handle_storage_v1 host r (bucket ∷ o ∷ seg ∷ segs) st =
    if bytes_eq o (codes "o")
    then route_object host r bucket (join_with b'/' (seg ∷ segs)) r.method st
    else (not_found, st)
