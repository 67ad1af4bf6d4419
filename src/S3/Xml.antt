-- ===== src/S3/Xml.antt =====
-- pkg/s3/xml.go: the values of the XML documents, and the error responses. An encoded document stands
-- as the value that is encoded.
use objectstorage.Prelude.{ℕ, Bool, Option, none, some, ◌≢◌, arith, List, [], ◌∷◌}
use objectstorage.Prelude.Bytes.{Bytes, codes}
use objectstorage.Prelude.Dict.{Dict}
use objectstorage.Prelude.Int.{ℤ}
use objectstorage.Store.Types.{
  Error, bucket_not_found, bucket_exists, bucket_not_empty, object_not_found, precondition_failed,
  invalid_name, call_failed, finished, corrupt_metadata, panicked,
}

pub record Owner : Type 0 where
  pub id : Bytes
  pub display_name : Bytes

abbrev pub default_owner : Owner
default_owner = record { id = codes "objectstorage"; display_name = codes "objectstorage" }

pub record BucketEntry : Type 0 where
  pub name : Bytes
  pub creation_date : Bytes

pub record ListAllMyBucketsResult : Type 0 where
  pub owner : Owner
  pub buckets : List BucketEntry

pub record Contents : Type 0 where
  pub key : Bytes
  pub last_modified : Bytes
  pub etag : Bytes
  pub size : ℕ
  pub storage_class : Bytes

-- A `CommonPrefix` is its one field. An empty text stands for a field that is left out.
pub record ListBucketResultV2 : Type 0 where
  pub name : Bytes
  pub prefix : Bytes
  pub delimiter : Bytes
  pub max_keys : ℤ
  pub encoding_type : Bytes
  pub key_count : ℕ
  pub is_truncated : Bool
  pub continuation_token : Bytes
  pub next_continuation_token : Bytes
  pub start_after : Bytes
  pub contents : List Contents
  pub common_prefixes : List Bytes

pub record ListBucketResultV1 : Type 0 where
  pub name : Bytes
  pub prefix : Bytes
  pub delimiter : Bytes
  pub marker : Bytes
  pub next_marker : Bytes
  pub max_keys : ℤ
  pub encoding_type : Bytes
  pub is_truncated : Bool
  pub contents : List Contents
  pub common_prefixes : List Bytes

pub record CopyObjectResult : Type 0 where
  pub etag : Bytes
  pub last_modified : Bytes

pub record InitiateMultipartUploadResult : Type 0 where
  pub bucket : Bytes
  pub key : Bytes
  pub upload_id : Bytes

pub record CompletedPart : Type 0 where
  pub part_number : ℤ
  pub etag : Bytes

pub record CompleteMultipartUploadResult : Type 0 where
  pub location : Bytes
  pub bucket : Bytes
  pub key : Bytes
  pub etag : Bytes

-- An object of the request is its key.
pub record DeleteRequest : Type 0 where
  pub quiet : Bool
  pub objects : List Bytes

-- The text of an error: one that the code writes, or that of an error that it passes on.
pub data Message : Type 0 where
  fixed : Bytes → Message
  of_error : Error → Message
  of_decoder of_source : Message
  part_missing part_mismatch : ℤ → Message

pub record DeleteError : Type 0 where
  pub key : Bytes
  pub code : Bytes
  pub message : Message

-- A `DeletedObject` is its key.
pub record DeleteResult : Type 0 where
  pub deleted : List Bytes
  pub errors : List DeleteError

pub record ErrorResponse : Type 0 where
  pub code : Bytes
  pub message : Message
  pub resource : Bytes

pub data Body : Type 0 where
  empty_body location_constraint : Body
  buckets_body : ListAllMyBucketsResult → Body
  list_v1_body : ListBucketResultV1 → Body
  list_v2_body : ListBucketResultV2 → Body
  copy_body : CopyObjectResult → Body
  initiate_body : InitiateMultipartUploadResult → Body
  complete_body : CompleteMultipartUploadResult → Body
  delete_body : DeleteResult → Body
  error_body : ErrorResponse → Body

-- A response: a status, headers and a body; what is handed to `http.ServeContent`, with the time of
-- the last change; or nothing, where the handler panics.
pub data Response : Type 0 where
  reply : ℕ → Dict Bytes Bytes → Body → Response
  serve_content : Dict Bytes Bytes → ℕ → Bytes → Response
  aborted : Response

unfoldable pub write_xml : ℕ → Body → Response
write_xml status v = reply status ((codes "content-type", codes "application/xml") ∷ []) v

unfoldable pub write_s3_error : ℕ → Bytes → Message → Bytes → Response
unfolding write_xml
write_s3_error status code message resource =
    write_xml status (error_body (record { code = code; message = message; resource = resource }))

-- The default case is that of the errors without a sentinel; a panic passes through the handler.
unfoldable pub write_store_error : Error → Bytes → Response
unfolding write_s3_error
write_store_error bucket_not_found resource =
    write_s3_error 404 (codes "NoSuchBucket") (fixed (codes "The specified bucket does not exist"))
      resource
write_store_error object_not_found resource =
    write_s3_error 404 (codes "NoSuchKey") (fixed (codes "The specified key does not exist."))
      resource
write_store_error bucket_exists resource =
    write_s3_error 409 (codes "BucketAlreadyOwnedByYou")
      (fixed (
        codes "Your previous request to create the named bucket succeeded and you already own it."))
      resource
write_store_error bucket_not_empty resource =
    write_s3_error 409 (codes "BucketNotEmpty")
      (fixed (codes "The bucket you tried to delete is not empty")) resource
write_store_error precondition_failed resource =
    write_s3_error 412 (codes "PreconditionFailed")
      (fixed (codes "At least one of the pre-conditions you specified did not hold")) resource
write_store_error invalid_name resource =
    write_s3_error 400 (codes "InvalidBucketName") (of_error invalid_name) resource
write_store_error call_failed resource =
    write_s3_error 500 (codes "InternalError") (of_error call_failed) resource
write_store_error finished resource =
    write_s3_error 500 (codes "InternalError") (of_error finished) resource
write_store_error corrupt_metadata resource =
    write_s3_error 500 (codes "InternalError") (of_error corrupt_metadata) resource
write_store_error panicked resource = aborted

-- `statusForStoreError` of pkg/s3/buckets.go
unfoldable pub status_for_store_error : Error → ℕ
status_for_store_error bucket_not_found = 404
status_for_store_error object_not_found = 404
status_for_store_error precondition_failed = 412
status_for_store_error _ = 500

-- The status of a response that has one: that of served content is left to `http.ServeContent`.
abbrev pub status_of : Response → Option ℕ
status_of (reply status h b) = some status
status_of (serve_content h updated content) = none
status_of aborted = none

pub status_of-write_store_error :
    (e : Error) (resource : Bytes) → status_of (write_store_error e resource) ≢ some 200
unfolding write_store_error write_s3_error write_xml
status_of-write_store_error bucket_not_found resource = ground arith
status_of-write_store_error object_not_found resource = ground arith
status_of-write_store_error bucket_exists resource = ground arith
status_of-write_store_error bucket_not_empty resource = ground arith
status_of-write_store_error precondition_failed resource = ground arith
status_of-write_store_error invalid_name resource = ground arith
status_of-write_store_error call_failed resource = ground arith
status_of-write_store_error finished resource = ground arith
status_of-write_store_error corrupt_metadata resource = ground arith
status_of-write_store_error panicked resource = ground arith
