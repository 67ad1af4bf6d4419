-- ===== src/S3/Server/Kept.antt =====
-- Every request to the server of pkg/s3 keeps its store sound.
use objectstorage.Prelude.{Option, none, some, not, ◌&&◌, List, [], ◌∷◌}
use objectstorage.Prelude.Bytes.{Bytes, codes, bytes_eq}
use objectstorage.Prelude.Int.{ℤ}
use objectstorage.Store.Bucket.{Faults}
use objectstorage.Store.Buckets.{Store}
use objectstorage.Store.Buckets.Sound.{IsSound}
use objectstorage.Store.Buckets.Keeps.{
  list_buckets-IsSound, create_bucket-IsSound, get_bucket-IsSound, delete_bucket-IsSound,
}
use objectstorage.Store.Objects.Lists.{list_objects_in-IsSound}
use objectstorage.Http.{
  Method, get_method, head_method, put_method, post_method, delete_method, other_method, Request,
  query_has, header_get,
}
use objectstorage.Http.Path.{split_path}
use objectstorage.Http.Text.{join_with}
use objectstorage.S3.Body.{Host}
use objectstorage.S3.Buckets.{
  list_buckets_handler, create_bucket_handler, head_bucket, delete_bucket_handler,
  get_bucket_location,
}
use objectstorage.S3.Objects.Kept.{
  put_object-IsSound, get_object-IsSound, delete_object-IsSound, delete_objects-IsSound,
  copy_object-IsSound,
}
use objectstorage.S3.Listing.{list_objects_handler, list_with, list_request, max_keys_of}
use objectstorage.S3.Multipart.{Server}
use objectstorage.S3.Multipart.Kept.{
  initiate_multipart_upload-IsSound, upload_part-IsSound, abort_multipart_upload-IsSound,
}
use objectstorage.S3.Multipart.Completed.{if-IsSound, complete_multipart_upload-IsSound}
use objectstorage.S3.Server.{
  has_value, is_get, route_bucket, route_object, handle_bucket, handle_object, dispatch, serve_http,
}

module _ (host : Host) where
  list_with-IsSound :
      (r : Request) (bucket : Bytes) (max : Option ℤ) (st : Store)
      → IsSound host.env st
      → IsSound host.env (list_with host r bucket max st).1
  list_with-IsSound r bucket none st h = h
  list_with-IsSound r bucket (some max) st h =
      list_objects_in-IsSound host.env (host.fails 0) host.now bucket (list_request r max) st h

  list_objects_handler-IsSound :
      (r : Request) (bucket : Bytes) (st : Store)
      → IsSound host.env st
      → IsSound host.env (list_objects_handler host r bucket st).1
  unfolding list_objects_handler
  list_objects_handler-IsSound r bucket st h = list_with-IsSound r bucket (max_keys_of r) st h

  module _ (r : Request) where
    route_bucket-IsSound :
        (bucket : Bytes) (m : Method) (s : Server)
        → IsSound host.env s.store
        → IsSound host.env (route_bucket host r bucket m s).1.store
    unfolding create_bucket_handler head_bucket delete_bucket_handler get_bucket_location
    route_bucket-IsSound bucket post_method s h =
        if-IsSound host.env (query_has (codes "delete") r) _ _
          (delete_objects-IsSound host r bucket s.store h) h
    route_bucket-IsSound bucket get_method s h =
        if-IsSound host.env (query_has (codes "location") r) _ _
          (get_bucket-IsSound host.env (host.fails 0) host.now bucket s.store h)
          (list_objects_handler-IsSound r bucket s.store h)
    route_bucket-IsSound bucket put_method s h =
        create_bucket-IsSound host.env (host.fails 0) host.now bucket s.store h
    route_bucket-IsSound bucket head_method s h =
        get_bucket-IsSound host.env (host.fails 0) host.now bucket s.store h
    route_bucket-IsSound bucket delete_method s h =
        delete_bucket-IsSound host.env (host.fails 0) host.now bucket s.store h
    route_bucket-IsSound bucket other_method s h = h

    route_object-IsSound :
        (bucket key : Bytes) (m : Method) (s : Server)
        → IsSound host.env s.store
        → IsSound host.env (route_object host r bucket key m s).1.store
    route_object-IsSound bucket key put_method s h =
        if-IsSound host.env (has_value (codes "uploadId") r && has_value (codes "partNumber") r) _ _
          (upload_part-IsSound host bucket key r s h)
          (if-IsSound host.env (not (bytes_eq (header_get (codes "x-amz-copy-source") r) [])) _ _
            (copy_object-IsSound host r bucket key s.store h)
            (put_object-IsSound host r bucket key s.store h))
    route_object-IsSound bucket key post_method s h =
        if-IsSound host.env (query_has (codes "uploads") r) _ _
          (initiate_multipart_upload-IsSound host bucket key r s h)
          (if-IsSound host.env (has_value (codes "uploadId") r) _ _
            (complete_multipart_upload-IsSound host bucket key r s h) h)
    route_object-IsSound bucket key delete_method s h =
        if-IsSound host.env (has_value (codes "uploadId") r) _ _
          (abort_multipart_upload-IsSound host bucket key r s h)
          (delete_object-IsSound host r bucket key s.store h)
    route_object-IsSound bucket key get_method s h = get_object-IsSound host r bucket key s.store h
    route_object-IsSound bucket key head_method s h = get_object-IsSound host r bucket key s.store h
    route_object-IsSound bucket key other_method s h = h

    dispatch-IsSound :
        (fails : Bytes → Faults) (path : Bytes) (segs : Option (List Bytes)) (s : Server)
        → IsSound host.env s.store
        → IsSound host.env (dispatch host fails r path segs s).1.store
    unfolding handle_bucket handle_object list_buckets_handler
    dispatch-IsSound fails path none s h = h
    dispatch-IsSound fails path (some []) s h =
        if-IsSound host.env (is_get r.method) _ _
          (list_buckets-IsSound host.env (host.fails 0) fails host.now s.store h) h
    dispatch-IsSound fails path (some (bucket ∷ [])) s h = route_bucket-IsSound bucket r.method s h
    dispatch-IsSound fails path (some (bucket ∷ seg ∷ segs)) s h =
        route_object-IsSound bucket (join_with b'/' (seg ∷ segs)) r.method s h

    -- Whatever calls of the operating system and of the database fail, and wherever the body breaks off:
    -- every request, of whatever method, path, query, headers and body, keeps the store of an S3 server
    -- sound.
    pub serve_http-IsSound :
        (fails : Bytes → Faults) (path : Bytes) (s : Server)
        → IsSound host.env s.store
        → IsSound host.env (serve_http host fails r path s).1.store
    unfolding serve_http
    serve_http-IsSound fails path s h = dispatch-IsSound fails path (split_path r.escaped_path) s h
