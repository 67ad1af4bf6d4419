-- ===== src/S3/Objects/Copies.antt =====
-- A copy of pkg/s3: the object that it makes is served with the content of its source.
use objectstorage.Prelude.{◌≡◌}
use objectstorage.Prelude.Bytes.{Bytes}
use objectstorage.Store.Types.{ObjectInfo}
use objectstorage.Store.Buckets.{Store}
use objectstorage.Store.Writer.ReadBack.{in_micros}
use objectstorage.S3.Body.{Host, etag_for}
use objectstorage.S3.Xml.{Response, copy_body, write_xml, serve_content}
use objectstorage.S3.Objects.{object_headers}

-- What a copy that succeeds makes a later GET of the copy give.
pub record IsCopy (host : Host) (content : Bytes) (copied got : Response) : Type 0 where
  pub found : ObjectInfo
  pub answered :
      copied
      ≡ write_xml 200
          (copy_body (record { etag = etag_for found; last_modified = host.iso8601 found.updated }))
  pub served :
      got ≡ serve_content (object_headers (in_micros found)) (in_micros found).updated content
