-- ===== src/Gcs/Resources.antt =====
-- pkg/gcs/resource.go: what the handlers of pkg/gcs answer with. The text of JSON and of times is not
-- modelled; `base64` is `base64.StdEncoding.EncodeToString`.
use objectstorage.Prelude.{ℕ, ◌/◌, ◌%◌, ◌^◌, Option, Bool, List, [], ◌∷◌, ◌++◌}
use objectstorage.Prelude.Bytes.{Bytes, codes}
use objectstorage.Prelude.Dict.{Dict}
use objectstorage.Prelude.Int.{ℤ}
use objectstorage.Store.Types.{
  Error, bucket_not_found, bucket_exists, bucket_not_empty, object_not_found, precondition_failed,
  invalid_name, call_failed, finished, corrupt_metadata, panicked, Metadata, Env, BucketInfo,
  ObjectInfo,
}
use objectstorage.Store.Bucket.{Faults}
use objectstorage.Http.Print.{format_int}

-- What a request meets outside the code. `decode_name` reads the name of a bucket resource from a body,
-- which may break off.
pub record Host : Type 0 where
  pub env : Env
  pub now : ℕ
  pub fails : Faults
  pub bucket_fails : Bytes → Faults
  pub rfc3339 : ℕ → Bytes
  pub base64 : Bytes → Bytes
  pub decode_name : Bytes → Bool → Option Bytes

pub record BucketResource : Type 0 where
  pub kind : Bytes
  pub id : Bytes
  pub name : Bytes
  pub location : Bytes
  pub storage_class : Bytes
  pub metageneration : ℤ
  pub time_created : Bytes
  pub updated : Bytes
  pub etag : Bytes

pub record BucketsResource : Type 0 where
  pub kind : Bytes
  pub items : List BucketResource

pub record ObjectResource : Type 0 where
  pub kind : Bytes
  pub id : Bytes
  pub name : Bytes
  pub bucket : Bytes
  pub generation : ℤ
  pub metageneration : ℤ
  pub content_type : Bytes
  pub storage_class : Bytes
  pub size : ℕ
  pub md5_hash : Bytes
  pub crc32c : Bytes
  pub etag : Bytes
  pub time_created : Bytes
  pub updated : Bytes
  pub metadata : Metadata

pub record ObjectsResource : Type 0 where
  pub kind : Bytes
  pub items : List ObjectResource
  pub prefixes : List Bytes
  pub next_page_token : Bytes

-- A text of the code, of a store error, of an error of `strconv` or of the decoder of JSON, or one that
-- names the method of the request.
pub data Message : Type 0 where
  fixed : Bytes → Message
  of_error : Error → Message
  of_parser of_decoder of_method : Message

pub record ErrorEnvelope : Type 0 where
  pub code : ℕ
  pub reason : Bytes
  pub message : Message

pub data Json : Type 0 where
  bucket_json : BucketResource → Json
  buckets_json : BucketsResource → Json
  object_json : ObjectResource → Json
  objects_json : ObjectsResource → Json
  error_json : ErrorEnvelope → Json

-- Also what is handed to `http.ServeContent`, and nothing, where the handler panics.
pub data Response : Type 0 where
  json_reply : ℕ → Json → Response
  no_content : Response
  media : Dict Bytes Bytes → ℕ → Bytes → Response
  aborted : Response

unfoldable pub write_json : ℕ → Json → Response
write_json status v = json_reply status v

unfoldable pub write_error : ℕ → Bytes → Message → Response
write_error code reason message =
    write_json code (error_json (record { code = code; reason = reason; message = message }))

unfoldable pub write_store_error : Error → Response
write_store_error bucket_not_found =
    write_error 404 (codes "notFound") (fixed (codes "The specified bucket does not exist."))
write_store_error object_not_found =
    write_error 404 (codes "notFound") (fixed (codes "No such object"))
write_store_error bucket_exists =
    write_error 409 (codes "conflict") (fixed (codes "The requested bucket name is not available."))
write_store_error bucket_not_empty =
    write_error 409 (codes "conflict")
      (fixed (codes "The bucket you tried to delete is not empty."))
write_store_error precondition_failed =
    write_error 412 (codes "conditionNotMet")
      (fixed (codes "At least one of the pre-conditions you specified did not hold."))
write_store_error invalid_name = write_error 400 (codes "invalid") (of_error invalid_name)
write_store_error call_failed = write_error 500 (codes "internalError") (of_error call_failed)
write_store_error finished = write_error 500 (codes "internalError") (of_error finished)
write_store_error corrupt_metadata =
    write_error 500 (codes "internalError") (of_error corrupt_metadata)
write_store_error panicked = aborted

-- The four bytes of a `uint32`, the highest first.
unfoldable pub encode_crc32c : (Bytes → Bytes) → ℕ → Bytes
encode_crc32c base64 v =
    base64 (v / 2 ^ 24 % 256 ∷ v / 2 ^ 16 % 256 ∷ v / 2 ^ 8 % 256 ∷ v % 256 ∷ [])

unfoldable pub to_bucket_resource : Host → BucketInfo → BucketResource
to_bucket_resource host info = record {
  kind = codes "storage#bucket";
  id = info.name;
  name = info.name;
  location = codes "US";
  storage_class = codes "STANDARD";
  metageneration = info.metageneration;
  time_created = host.rfc3339 info.created;
  updated = host.rfc3339 info.created;
  etag = b'm' ∷ format_int info.metageneration;
}

-- `g%dm%d`
abbrev pub generation_tag : ObjectInfo → Bytes
generation_tag info = b'g' ∷ format_int info.generation ++ b'm' ∷ format_int info.metageneration

unfoldable pub to_object_resource : Host → ObjectInfo → ObjectResource
to_object_resource host info = record {
  kind = codes "storage#object";
  id = info.bucket ++ b'/' ∷ info.name ++ b'/' ∷ format_int info.generation;
  name = info.name;
  bucket = info.bucket;
  generation = info.generation;
  metageneration = info.metageneration;
  content_type = info.content_type;
  storage_class = codes "STANDARD";
  size = info.size;
  md5_hash = host.base64 info.md5;
  crc32c = encode_crc32c host.base64 info.crc32c;
  etag = generation_tag info;
  time_created = host.rfc3339 info.created;
  updated = host.rfc3339 info.updated;
  metadata = info.metadata;
}
