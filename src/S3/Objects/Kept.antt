-- ===== src/S3/Objects/Kept.antt =====
-- The handlers of pkg/s3/objects.go keep the store sound.
use objectstorage.Prelude.{ℕ, Option, none, some, Bool, List, [], ◌∷◌, length, refl}
use objectstorage.Prelude.Bytes.{Bytes}
use objectstorage.Store.Types.{Result, ok, err, ObjectInfo, Env}
use objectstorage.Store.Bucket.{Faults, open_object}
use objectstorage.Store.Buckets.{Store}
use objectstorage.Store.Buckets.Sound.{IsSound}
use objectstorage.Store.Buckets.Keeps.{within-IsSound}
use objectstorage.Store.Objects.{open_object_in, delete_object_in}
use objectstorage.Store.Objects.Kept.{put_object_in-IsSound, delete_object_in-IsSound}
use objectstorage.Http.{Request, pieces_of}
use objectstorage.S3.Body.{
  Host, request_body, with_writes, no_conditions, put_options, object_resource,
}
use objectstorage.S3.Xml.{DeleteRequest, DeleteResult}
use objectstorage.S3.Objects.{
  put_object, get_object, delete_object, delete_keys, delete_decoded, delete_objects, report,
  failure, copy_options, copy_opened, copy_from, copy_object,
}

module _ (env : Env) where
  pub open_object_in-IsSound :
      (fails : Faults) (now : ℕ) (bucket key : Bytes) (st : Store)
      → IsSound env st
      → IsSound env (open_object_in env fails now bucket key st).1
  unfolding open_object_in
  open_object_in-IsSound fails now bucket key st h =
      within-IsSound env fails now bucket (λ b. (open_object env fails key b, b)) (λ b k. (k, refl))
        st h

module _ (host : Host) (r : Request) (bucket key : Bytes) (st : Store)
    (h : IsSound host.env st) where
  pub put_object-IsSound : IsSound host.env (put_object host r bucket key st).1
  unfolding put_object
  put_object-IsSound =
      put_object_in-IsSound host.env (host.fails 0) host.now bucket st h host.temp_name key
        (with_writes host.stored (request_body host r).0) (request_body host r).1 (put_options r)

  pub get_object-IsSound : IsSound host.env (get_object host r bucket key st).1
  unfolding get_object
  get_object-IsSound = open_object_in-IsSound host.env (host.fails 0) host.now bucket key st h

  pub delete_object-IsSound : IsSound host.env (delete_object host r bucket key st).1
  unfolding delete_object
  delete_object-IsSound =
      delete_object_in-IsSound host.env (host.fails 0) host.now bucket st h key no_conditions

module _ (host : Host) where
  delete_keys-IsSound :
      (quiet : Bool) (bucket : Bytes) (keys : List Bytes) (resp : DeleteResult) (st : Store)
      → IsSound host.env st
      → IsSound host.env (delete_keys host quiet bucket keys resp st).1
  unfolding delete_keys
  delete_keys-IsSound quiet bucket [] resp st h = h
  delete_keys-IsSound quiet bucket (key ∷ keys) resp st h =
      let (result, st') =
        delete_object_in host.env (host.fails (length keys)) host.now bucket key no_conditions st in
      delete_keys-IsSound quiet bucket keys (report quiet key (failure result) resp) st' (
        delete_object_in-IsSound host.env (host.fails (length keys)) host.now bucket st h key
          no_conditions)

  delete_decoded-IsSound :
      (bucket : Bytes) (req : Option DeleteRequest) (st : Store)
      → IsSound host.env st
      → IsSound host.env (delete_decoded host bucket req st).1
  delete_decoded-IsSound bucket none st h = h
  delete_decoded-IsSound bucket (some req) st h =
      delete_keys-IsSound req.quiet bucket req.objects (record { deleted = []; errors = [] }) st h

  pub delete_objects-IsSound :
      (r : Request) (bucket : Bytes) (st : Store)
      → IsSound host.env st
      → IsSound host.env (delete_objects host r bucket st).1
  unfolding delete_objects
  delete_objects-IsSound r bucket st h =
      delete_decoded-IsSound bucket (host.decode_delete r.body r.broken) st h

  module _ (r : Request) (bucket key : Bytes) where
    copy_opened-IsSound :
        (resource : Bytes) (opened : Result (ObjectInfo × Bytes) × Store)
        → IsSound host.env opened.1
        → IsSound host.env (copy_opened host r resource bucket key opened).1
    copy_opened-IsSound resource (err e, st) h = h
    copy_opened-IsSound resource (ok (source, content), st) h =
        put_object_in-IsSound host.env (host.fails 1) host.now bucket st h host.temp_name key
          (with_writes host.stored (pieces_of host.buffer host.pick content)) (host.file_breaks 0)
          (copy_options r source)

    copy_from-IsSound :
        (source : Option (Bytes × Bytes)) (st : Store)
        → IsSound host.env st
        → IsSound host.env (copy_from host r source bucket key st).1
    copy_from-IsSound none st h = h
    copy_from-IsSound (some (source_bucket, source_key)) st h =
        copy_opened-IsSound (object_resource source_bucket source_key) _
          (open_object_in-IsSound host.env (host.fails 0) host.now source_bucket source_key st h)

    pub copy_object-IsSound :
        (st : Store) → IsSound host.env st → IsSound host.env (copy_object host r bucket key st).1
    unfolding copy_object
    copy_object-IsSound st h = copy_from-IsSound _ st h
