-- ===== src/Gcs/Server/Kept.antt =====
-- Requests of the JSON API of pkg/gcs keep the store sound.
use objectstorage.Prelude.{Bool, true, false, if◌then◌else◌, List, [], ◌∷◌}
use objectstorage.Prelude.Bytes.{Bytes, codes, bytes_eq}
use objectstorage.Store.Types.{Env}
use objectstorage.Store.Buckets.{Store}
use objectstorage.Store.Buckets.Sound.{IsSound}
use objectstorage.Http.{
  Method, get_method, head_method, put_method, post_method, delete_method, other_method, Request,
  query_get,
}
use objectstorage.Http.Text.{join_with}
use objectstorage.Gcs.Resources.{Host, Response}
use objectstorage.Gcs.Objects.Kept.{
  get_object-IsSound, serve_media-IsSound, delete_object-IsSound, list_objects_handler-IsSound,
  create_bucket_handler-IsSound, get_bucket_handler-IsSound, delete_bucket_handler-IsSound,
  list_buckets_handler-IsSound,
}
use objectstorage.Gcs.Server.{
  route_buckets, route_bucket, route_objects, route_object, handle_storage_v1,
}

if-IsSound :
    (env : Env) (test : Bool) (x y : Response × Store)
    → IsSound env x.1
    → IsSound env y.1
    → IsSound env (if test then x else y).1
if-IsSound env true x y h k = h
if-IsSound env false x y h k = k

module _ (host : Host) (r : Request) (st : Store) (h : IsSound host.env st) where
  route_buckets-IsSound : (m : Method) → IsSound host.env (route_buckets host r m st).1
  route_buckets-IsSound get_method = list_buckets_handler-IsSound host r st h
  route_buckets-IsSound post_method = create_bucket_handler-IsSound host r st h
  route_buckets-IsSound head_method = h
  route_buckets-IsSound put_method = h
  route_buckets-IsSound delete_method = h
  route_buckets-IsSound other_method = h

  module _ (bucket : Bytes) where
    route_bucket-IsSound : (m : Method) → IsSound host.env (route_bucket host bucket m st).1
    route_bucket-IsSound get_method = get_bucket_handler-IsSound host r st h bucket
    route_bucket-IsSound delete_method = delete_bucket_handler-IsSound host r st h bucket
    route_bucket-IsSound head_method = h
    route_bucket-IsSound put_method = h
    route_bucket-IsSound post_method = h
    route_bucket-IsSound other_method = h

    route_objects-IsSound : (m : Method) → IsSound host.env (route_objects host r bucket m st).1
    route_objects-IsSound get_method = list_objects_handler-IsSound host r st h bucket
    route_objects-IsSound head_method = h
    route_objects-IsSound put_method = h
    route_objects-IsSound post_method = h
    route_objects-IsSound delete_method = h
    route_objects-IsSound other_method = h

    route_object-IsSound :
        (object : Bytes) (m : Method) → IsSound host.env (route_object host r bucket object m st).1
    route_object-IsSound object get_method =
        if-IsSound host.env (bytes_eq (query_get (codes "alt") r) (codes "media")) _ _
          (serve_media-IsSound host r st h bucket object)
          (get_object-IsSound host r st h bucket object)
    route_object-IsSound object delete_method = delete_object-IsSound host r st h bucket object
    route_object-IsSound object head_method = h
    route_object-IsSound object put_method = h
    route_object-IsSound object post_method = h
    route_object-IsSound object other_method = h

  -- Whatever calls fail: every request of the JSON API, of whatever path behind /storage/v1/b, method,
  -- query and body, keeps a sound store sound.
  pub handle_storage_v1-IsSound :
      (segs : List Bytes) → IsSound host.env (handle_storage_v1 host r segs st).1
  unfolding handle_storage_v1
  handle_storage_v1-IsSound [] = route_buckets-IsSound r.method
  handle_storage_v1-IsSound (bucket ∷ []) = route_bucket-IsSound bucket r.method
  handle_storage_v1-IsSound (bucket ∷ o ∷ []) =
      if-IsSound host.env (bytes_eq o (codes "o")) _ _ (route_objects-IsSound bucket r.method) h
  handle_storage_v1-IsSound (bucket ∷ o ∷ seg ∷ segs) =
      if-IsSound host.env (bytes_eq o (codes "o")) _ _
        (route_object-IsSound bucket (join_with b'/' (seg ∷ segs)) r.method) h
