-- ===== src/S3/Body.antt =====
-- What a request brings to the handlers of pkg/s3: its body, its metadata and its options.
pub mod Reads
use objectstorage.Prelude.{
  ℕ, ◌||◌, Bool, true, false, ◌&&◌, if◌then◌else◌, Option, none, some, List, [], ◌∷◌, ◌++◌, length,
  arith,
}
use objectstorage.Prelude.Bytes.{Bytes, codes, bytes_eq, has_prefix, bytes_Eq}
use objectstorage.Prelude.Dict.{Dict, put}
use objectstorage.Prelude.Int.{pos}
use objectstorage.Store.Types.{Env, Metadata, ObjectInfo, Conditions, PutOptions}
use objectstorage.Store.Bucket.{Faults}
use objectstorage.Http.{Request, header_get, pieces_of, from_some}
use objectstorage.Http.Text.{to_lower, trim_prefix, contains, hex_encode}
use objectstorage.S3.Chunked.{decode}
use objectstorage.S3.Chunked.Ends.{decode_total}
use objectstorage.S3.Xml.{DeleteRequest, CompletedPart}

-- What a handler meets besides the request: the clock, the calls that fail in each of its calls of the
-- store, the sizes of its reads and writes, the fresh names, which files cannot be opened or read to
-- their end, and the decoding of XML, of which `none` is an error. The numbers that the functions take
-- count what is left to do.
pub record Host : Type 0 where
  pub env : Env
  pub now : ℕ
  pub fails : ℕ → Faults
  pub temp_name : Bytes
  pub upload_id : Bytes
  pub buffer : ℕ
  pub pick : ℕ → ℕ
  pub stored : ℕ → ℕ
  pub open_fails : ℕ → Bool
  pub file_breaks : ℕ → Bool
  pub iso8601 : ℕ → Bytes
  pub decode_delete : Bytes → Bool → Option DeleteRequest
  pub decode_complete : Bytes → Bool → Option (List CompletedPart)

unfoldable pub is_chunked : Request → Bool
is_chunked r =
    has_prefix (header_get (codes "x-amz-content-sha256") r) (codes "STREAMING-")
    || contains (header_get (codes "content-encoding") r) (codes "aws-chunked")

-- What a copy gets of `requestBody(r)`: the pieces, and whether it breaks off.
unfoldable pub request_body : Host → Request → List Bytes × Bool
request_body host r =
    if is_chunked r
    then from_some (decode host.buffer host.pick r.body r.broken)
        (decode_total host.buffer host.pick r.body r.broken)
    else (pieces_of host.buffer host.pick r.body, r.broken)

-- The pieces with what the write of each of them stores.
unfoldable pub with_writes : (ℕ → ℕ) → List Bytes → List (Bytes × ℕ)
with_writes stored [] = []
with_writes stored (p ∷ pieces) = (p, stored (length pieces)) ∷ with_writes stored pieces

abbrev pub quoted : Bytes → Bytes
quoted s = 34 ∷ (s ++ 34 ∷ [])

unfoldable pub etag_for : ObjectInfo → Bytes
etag_for o = quoted (hex_encode o.md5)

abbrev add_metadata : Bytes → List Bytes → Metadata → Metadata
add_metadata name [] md = md
add_metadata name (v ∷ vs) md =
    if has_prefix (to_lower name) (codes "x-amz-meta-")
    then put (trim_prefix (to_lower name) (codes "x-amz-meta-")) v md
    else md

-- The headers in the order in which the loop over the map meets them.
unfoldable pub metadata_from_headers : Dict Bytes (List Bytes) → Metadata → Metadata
metadata_from_headers [] md = md
metadata_from_headers ((name, values) ∷ h) md =
    metadata_from_headers h (add_metadata name values md)

abbrev pub no_conditions : Conditions
no_conditions = record {
  generation_match = none;
  generation_not_match = none;
  metageneration_match = none;
  metageneration_not_match = none;
}

-- `If-None-Match: *` asks that no object is live.
unfoldable pub put_options : Request → PutOptions
put_options r = record {
  content_type = header_get (codes "content-type") r;
  metadata = metadata_from_headers r.headers [];
  conditions =
      if bytes_eq (header_get (codes "if-none-match") r) (codes "*")
      then record no_conditions { generation_match = some (pos 0) }
      else no_conditions;
}

abbrev pub bucket_resource : Bytes → Bytes
bucket_resource bucket = b'/' ∷ bucket

abbrev pub object_resource : Bytes → Bytes → Bytes
object_resource bucket key = b'/' ∷ (bucket ++ b'/' ∷ key)
