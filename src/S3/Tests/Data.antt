-- ===== src/S3/Tests/Data.antt =====
-- The host and the requests that the tests of pkg/s3 share.
use objectstorage.Prelude.{none, some, false, [], ◌∷◌, List, ◌≡◌, arith}
use objectstorage.Prelude.Bytes.{Bytes, codes, bytes_eq, bytes_Eq}
use objectstorage.Prelude.Dict.{Dict}
use objectstorage.Prelude.Int.{pos}
use objectstorage.Store.Types.{PutOptions}
use objectstorage.Store.Bucket.{no_faults}
use objectstorage.Store.Writer.ReadBack.{RoundTrips}
use objectstorage.Store.Tests.Data.{plain_env}
use objectstorage.Http.{Method, get_method, Request}
use objectstorage.S3.Body.{Host}

abbrev pub host : Bytes → Host
host temp_name = record {
  env = plain_env;
  now = 8000;
  fails = λ n. no_faults;
  temp_name = temp_name;
  upload_id = codes "A";
  buffer = 1;
  pick = λ n. 0;
  stored = λ i. 2;
  open_fails = λ n. false;
  file_breaks = λ n. false;
  iso8601 = λ t. [];
  decode_delete = λ b x. none;
  decode_complete = λ b x.
      some (
        record { part_number = pos 1; etag = [] } ∷ record { part_number = pos 2; etag = [] } ∷ []);
}

abbrev pub request : Method → Dict Bytes Bytes → Dict Bytes (List Bytes) → Bytes → Request
request method query headers body = record {
  method = method;
  escaped_path = codes "/photos/a/dog";
  query = query;
  headers = headers;
  body = body;
  broken = false;
}

abbrev pub got : Request
got = request get_method [] [] []

-- Without metadata, JSON is not asked.
pub bare-RoundTrips : (opts : PutOptions) → opts.metadata ≡ [] → RoundTrips plain_env opts
unfolding bytes_eq
bare-RoundTrips opts e json q = ground (arith, e, q)
