-- ===== src/S3/Multipart/Served.antt =====
-- The object that a completion of pkg/s3 makes is served with the contents of its parts.
use objectstorage.Prelude.{ℕ, some, true, List, ◌≡◌, ◌≢◌, arith}
use objectstorage.Prelude.Bytes.{Bytes, bytes_Eq}
use objectstorage.Store.Types.{ok, ObjectInfo}
use objectstorage.Store.Names.{valid_bucket_name}
use objectstorage.Store.Bucket.{path_Eq, Bucket}
use objectstorage.Store.Buckets.{Store, bucket as find}
use objectstorage.Store.Writer.ReadBack.{in_micros}
use objectstorage.S3.Body.{Host, etag_for, object_resource}
use objectstorage.S3.Xml.{
  Message, Response, CompletedPart, complete_body, write_xml, write_s3_error, status_of,
}
use objectstorage.S3.Multipart.{StagedPart, MultipartUpload, Server}
use objectstorage.S3.Multipart.Assembly.{staged_content}
use objectstorage.S3.Multipart.Complete.{found_parts, check_parts, Assembly}
use objectstorage.S3.Multipart.Opens.{Opens}

pub refusal :
    (status : ℕ) (code : Bytes) (m : Message) (resource : Bytes)
    → status ≢ 200
    → status_of (write_s3_error status code m resource) ≢ some 200
unfolding write_s3_error write_xml
refusal status code m resource h = ground (arith, h)

module _ (host : Host) (bucket key : Bytes) (b : Bucket) where
  -- The parts of the request have become the object.
  pub record IsMade (up : MultipartUpload) (requested : List CompletedPart)
      (made : Response × Server) : Type 0 where
    pub parts : List StagedPart
    pub checked : check_parts up.parts requested ≡ found_parts parts
    pub file : Bytes
    pub staged : staged_content parts b.files ≡ some file
    pub found : ObjectInfo
    pub answered :
        made.0
        ≡ write_xml 200 (
            complete_body (record {
              location = object_resource bucket key;
              bucket = bucket;
              key = key;
              etag = etag_for found;
            }))
    pub valid : valid_bucket_name bucket ≡ true
    pub opens : Opens host.env bucket key made.1.store (ok (in_micros found, file))
