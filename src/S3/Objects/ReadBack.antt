-- ===== src/S3/Objects/ReadBack.antt =====
-- An object that a PUT of pkg/s3 stores is what a GET gives afterwards.
use objectstorage.Prelude.{ℕ, ◌≡◌, refl, subst, true, false, some, List, [], ◌∷◌, ◌++◌, ap, ◌∙◌}
use objectstorage.Prelude.Bytes.{Bytes, codes}
use objectstorage.Store.Types.{Result, ok, err, ObjectInfo}
use objectstorage.Store.Bucket.{no_faults}
use objectstorage.Store.Buckets.{Store}
use objectstorage.Store.Buckets.Sound.{IsSound}
use objectstorage.Store.Objects.{put_object_in}
use objectstorage.Store.Objects.Reads.{open_object_in-put_object_in}
use objectstorage.Store.Writer.ReadBack.{RoundTrips, in_micros}
use objectstorage.Http.{Request}
use objectstorage.S3.Chunked.{flatten}
use objectstorage.S3.Chunked.Decodes.{Frame, IsHeader, IsFramed, wire, payloads}
use objectstorage.S3.Body.{
  Host, is_chunked, request_body, with_writes, put_options, etag_for, object_resource,
}
use objectstorage.S3.Body.Reads.{concat-with_writes, request_body-wire}
use objectstorage.S3.Xml.{
  Response, reply, serve_content, empty_body, status_of, status_of-write_store_error,
}
use objectstorage.S3.Objects.{put_response, put_object, get_response, get_object, object_headers}

-- The same host later, when no call fails.
abbrev pub later : ℕ → Host → Host
later now host = record host { now = now; fails = λ call. no_faults }

-- What a put that succeeds makes a later GET give: the content, under the ETag of the put.
pub record IsServed (host : Host) (content : Bytes) (put got : Response) : Type 0 where
  pub found : ObjectInfo
  pub answered : put ≡ reply 200 ((codes "etag", etag_for found) ∷ []) empty_body
  pub served :
      got ≡ serve_content (object_headers (in_micros found)) (in_micros found).updated content

pub put_response-ok :
    (resource : Bytes) (result : Result ObjectInfo)
    → status_of (put_response resource result) ≡ some 200
    → (found : ObjectInfo) × (result ≡ ok found)
put_response-ok resource (err e) h = absurd (status_of-write_store_error e resource h)
put_response-ok resource (ok found) h = (found, refl)

module _ (host : Host) (now : ℕ) (r got : Request) (bucket key : Bytes) (st : Store)
    (json : RoundTrips host.env (put_options r))
    (injective : (x y : Bytes) → host.env.sha256_hex x ≡ host.env.sha256_hex y → x ≡ y)
    (sound : IsSound host.env st)
    (succeeds : status_of (put_object host r bucket key st).0 ≡ some 200) where
  -- Whatever calls fail in a PUT that succeeds in a sound store, where JSON gives back the metadata and no
  -- two contents have the same digest: a GET afterwards, where no call fails, serves the content that
  -- was read of the body, under the ETag with which the PUT was answered.
  pub get_object-put_object :
      IsServed host
        (flatten (request_body host r).0)
        (put_object host r bucket key st).0
        (get_object (later now host) got bucket key (put_object host r bucket key st).1).0
  unfolding put_object get_object
  get_object-put_object =
      let (pieces, broken) = request_body host r in
      let chunks = with_writes host.stored pieces in
      let (found, done) =
        put_response-ok (object_resource bucket key)
          (put_object_in host.env (host.fails 0) host.now bucket host.temp_name key chunks broken
            (put_options r) st).0
          succeeds in
      let read =
        open_object_in-put_object_in host.env (host.fails 0) host.now now bucket host.temp_name key
          chunks broken (put_options r) st found json injective sound done in
      record {
        found = found;
        answered = ap (put_response (object_resource bucket key)) done;
        served =
            ap (get_response got.method (object_resource bucket key)) read
            ∙ ap (λ c. serve_content (object_headers (in_micros found)) (in_micros found).updated c)
                (concat-with_writes host.stored pieces);
      }

  -- A PUT with a body in the aws-chunked framing, under the same conditions: a GET afterwards serves
  -- the payloads of the chunks, one after the other, and nothing of the framing.
  pub get_object-put_wire :
      (frames : List Frame) (last_header trailers : Bytes)
      → is_chunked r ≡ true
      → IsFramed frames
      → IsHeader last_header 0
      → r.body ≡ wire frames (last_header ++ 10 ∷ trailers)
      → r.broken ≡ false
      → IsServed host
          (payloads frames [])
          (put_object host r bucket key st).0
          (get_object (later now host) got bucket key (put_object host r bucket key st).1).0
  get_object-put_wire frames last_header trailers chunked framed header body whole =
      let (content, _) =
        request_body-wire host r frames last_header trailers chunked framed header body whole in
      subst
        (λ c.
          IsServed host c (put_object host r bucket key st).0
            (get_object (later now host) got bucket key (put_object host r bucket key st).1).0)
        content get_object-put_object
