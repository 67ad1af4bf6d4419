-- ===== src/Gcs/Objects/Kept.antt =====
-- The handlers of pkg/gcs that read, list and delete keep the store sound.
use objectstorage.Prelude.{Option, none, some, refl}
use objectstorage.Prelude.Bytes.{Bytes}
use objectstorage.Prelude.Int.{ℤ}
use objectstorage.Store.Types.{Conditions}
use objectstorage.Store.Bucket.{get_object as find_object}
use objectstorage.Store.Buckets.{Store}
use objectstorage.Store.Buckets.Sound.{IsSound}
use objectstorage.Store.Buckets.Keeps.{
  within-IsSound, create_bucket-IsSound, get_bucket-IsSound, delete_bucket-IsSound,
  list_buckets-IsSound,
}
use objectstorage.Store.Objects.{get_object_in}
use objectstorage.Store.Objects.Kept.{delete_object_in-IsSound}
use objectstorage.Store.Objects.Lists.{list_objects_in-IsSound}
use objectstorage.S3.Objects.Kept.{open_object_in-IsSound}
use objectstorage.Http.{Request}
use objectstorage.Gcs.Conditions.{parse_conditions}
use objectstorage.Gcs.Resources.{Host}
use objectstorage.Gcs.Objects.{
  get_object, delete_parsed, delete_object, list_request, list_with, max_results_param,
  list_objects_handler, serve_media,
}
use objectstorage.Gcs.Buckets.{
  create_named, create_bucket_handler, get_bucket_handler, list_buckets_handler,
  delete_bucket_handler,
}

module _ (host : Host) (r : Request) (st : Store) (h : IsSound host.env st) where
  module _ (bucket object : Bytes) where
    pub get_object-IsSound : IsSound host.env (get_object host r bucket object st).1
    unfolding get_object get_object_in
    get_object-IsSound =
        within-IsSound host.env host.fails host.now bucket
          (λ b. (find_object host.env host.fails object b, b)) (λ b k. (k, refl)) st h

    pub serve_media-IsSound : IsSound host.env (serve_media host r bucket object st).1
    unfolding serve_media
    serve_media-IsSound = open_object_in-IsSound host.env host.fails host.now bucket object st h

    delete_parsed-IsSound :
        (c : Option Conditions) → IsSound host.env (delete_parsed host bucket object c st).1
    delete_parsed-IsSound none = h
    delete_parsed-IsSound (some conds) =
        delete_object_in-IsSound host.env host.fails host.now bucket st h object conds

    pub delete_object-IsSound : IsSound host.env (delete_object host r bucket object st).1
    unfolding delete_object
    delete_object-IsSound = delete_parsed-IsSound (parse_conditions r)

  list_with-IsSound :
      (bucket : Bytes) (o : Option ℤ) → IsSound host.env (list_with host r bucket o st).1
  list_with-IsSound bucket none = h
  list_with-IsSound bucket (some n) =
      list_objects_in-IsSound host.env host.fails host.now bucket (list_request r n) st h

  pub list_objects_handler-IsSound :
      (bucket : Bytes) → IsSound host.env (list_objects_handler host r bucket st).1
  unfolding list_objects_handler
  list_objects_handler-IsSound bucket = list_with-IsSound bucket (max_results_param r)

  create_named-IsSound : (o : Option Bytes) → IsSound host.env (create_named host o st).1
  create_named-IsSound none = h
  create_named-IsSound (some name) = create_bucket-IsSound host.env host.fails host.now name st h

  pub create_bucket_handler-IsSound : IsSound host.env (create_bucket_handler host r st).1
  unfolding create_bucket_handler
  create_bucket_handler-IsSound = create_named-IsSound (host.decode_name r.body r.broken)

  pub get_bucket_handler-IsSound :
      (name : Bytes) → IsSound host.env (get_bucket_handler host name st).1
  unfolding get_bucket_handler
  get_bucket_handler-IsSound name = get_bucket-IsSound host.env host.fails host.now name st h

  pub delete_bucket_handler-IsSound :
      (name : Bytes) → IsSound host.env (delete_bucket_handler host name st).1
  unfolding delete_bucket_handler
  delete_bucket_handler-IsSound name = delete_bucket-IsSound host.env host.fails host.now name st h

  pub list_buckets_handler-IsSound : IsSound host.env (list_buckets_handler host st).1
  unfolding list_buckets_handler
  list_buckets_handler-IsSound =
      list_buckets-IsSound host.env host.fails host.bucket_fails host.now st h
