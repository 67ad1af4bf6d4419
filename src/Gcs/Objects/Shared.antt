-- ===== src/Gcs/Objects/Shared.antt =====
-- An object that a PUT of pkg/s3 stores is what a download of pkg/gcs gives afterwards.
use objectstorage.Prelude.{◌≡◌, ◌↔◌, some, [], ◌∷◌, ap, ◌∙◌}
use objectstorage.Prelude.Bytes.{Bytes, codes}
use objectstorage.Store.Types.{Env, ok, ObjectInfo}
use objectstorage.Store.Bucket.{no_faults}
use objectstorage.Store.Buckets.{Store}
use objectstorage.Store.Buckets.Sound.{IsSound}
use objectstorage.Store.Objects.{put_object_in}
use objectstorage.Store.Objects.Reads.{open_object_in-put_object_in}
use objectstorage.Store.Writer.ReadBack.{RoundTrips, in_micros}
use objectstorage.Http.{Request}
use objectstorage.S3.Chunked.{flatten}
use objectstorage.S3.Body as S3
use objectstorage.S3.Body.{request_body, with_writes, put_options, etag_for, object_resource}
use objectstorage.S3.Body.Reads.{concat-with_writes}
use objectstorage.S3.Xml as Answers
use objectstorage.S3.Xml.{reply, empty_body, status_of}
use objectstorage.S3.Objects.{put_response, put_object}
use objectstorage.S3.Objects.ReadBack.{put_response-ok}
use objectstorage.Gcs.Resources.{Host, media}
use objectstorage.Gcs.Objects.{media_headers, serve_media}
use objectstorage.Gcs.Objects.Reads.{Allows, serve_media_iff}

-- A host of pkg/gcs with the digests and the JSON of another, in which no call fails.
abbrev pub calm : Env → Host → Host
calm env host = record host { env = env; fails = no_faults }

-- The answer of a PUT, and what any download of the object after it is answered.
pub record IsShared (env : Env) (gcs : Host) (bucket key content : Bytes) (put : Answers.Response)
    (st : Store) : Type 0 where
  pub found : ObjectInfo
  pub answered : put ≡ reply 200 ((codes "etag", etag_for found) ∷ []) empty_body
  pub served :
      (got : Request)
      → ((serve_media (calm env gcs) got bucket key st).0
          ≡ media
              (media_headers (calm env gcs) (in_micros found))
              (in_micros found).updated
              content)
        ↔ Allows got (in_micros found)

-- Whatever calls fail in a PUT of S3 that succeeds in a sound store, where JSON gives back the metadata and
-- no two contents have the same digest: a download of GCS afterwards, where no call fails, gives the
-- content that was read of the body exactly when its parameter `generation` and its preconditions
-- allow the object that the PUT was answered with.
pub serve_media-put_object :
    (host : S3.Host) (gcs : Host) (r : Request) (bucket key : Bytes) (st : Store)
    → RoundTrips host.env (put_options r)
    → ((x y : Bytes) → host.env.sha256_hex x ≡ host.env.sha256_hex y → x ≡ y)
    → IsSound host.env st
    → status_of (put_object host r bucket key st).0 ≡ some 200
    → IsShared host.env gcs bucket key
        (flatten (request_body host r).0)
        (put_object host r bucket key st).0
        (put_object host r bucket key st).1
unfolding put_object
serve_media-put_object host gcs r bucket key st json injective sound succeeds =
    let (pieces, broken) = request_body host r in
    let chunks = with_writes host.stored pieces in
    let stored =
      put_object_in host.env (host.fails 0) host.now bucket host.temp_name key chunks broken
        (put_options r) st in
    let (found, done) = put_response-ok (object_resource bucket key) stored.0 succeeds in
    let read =
      open_object_in-put_object_in host.env (host.fails 0) host.now gcs.now bucket host.temp_name
        key chunks broken (put_options r) st found json injective sound done in
    record {
      found = found;
      answered = ap (put_response (object_resource bucket key)) done;
      served = λ got.
          serve_media_iff (calm host.env gcs) got bucket key stored.1 (in_micros found)
            (flatten pieces)
            (read ∙ ap (λ c. ok (in_micros found, c)) (concat-with_writes host.stored pieces));
    }
