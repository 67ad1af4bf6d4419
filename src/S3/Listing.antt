-- ===== src/S3/Listing.antt =====
-- pkg/s3/objects.go: the listing of a bucket, in its two versions.
pub mod Pages
use objectstorage.Prelude.{
  ℕ, ◌+◌, Option, none, some, Bool, true, false, not, ◌&&◌, if◌then◌else◌, List, [], ◌∷◌, ◌++◌, map,
  length,
}
use objectstorage.Prelude.Bytes.{Bytes, codes, bytes_eq, bytes_lt}
use objectstorage.Prelude.Int.{ℤ, pos}
use objectstorage.Store.Types.{Result, ok, err, ObjectInfo, ListRequest, ListResult}
use objectstorage.Store.Successor.{prefix_successor}
use objectstorage.Store.Buckets.{Store}
use objectstorage.Store.Objects.{list_objects_in}
use objectstorage.Store.Objects.Lists.{list_objects_in-ne-none}
use objectstorage.Http.{Request, query_get, from_some}
use objectstorage.Http.Text.{atoi, has_suffix, query_escape}
use objectstorage.S3.Body.{Host, etag_for, bucket_resource}
use objectstorage.S3.Xml.{
  fixed, Contents, ListBucketResultV1, ListBucketResultV2, list_v1_body, list_v2_body, Response,
  write_xml, write_s3_error, write_store_error,
}

unfoldable pub is_v2 : Request → Bool
is_v2 r = bytes_eq (query_get (codes "list-type") r) (codes "2")

-- `none` is an error of `strconv.Atoi`.
unfoldable pub max_keys_of : Request → Option ℤ
max_keys_of r =
    let v = query_get (codes "max-keys") r in if bytes_eq v [] then some (pos 1000) else atoi v

unfoldable pub encode_name : Request → Bytes → Bytes
encode_name r v =
    if bytes_eq (query_get (codes "encoding-type") r) (codes "url") then query_escape v else v

-- The continuation token is inclusive, as the store's token is; start-after is exclusive.
unfoldable pub v2_token : Request → Bytes
v2_token r =
    let token = query_get (codes "continuation-token") r in
    let start_after = query_get (codes "start-after") r in
    if not (bytes_eq token [])
    then token
    else if not (bytes_eq start_after [])
    then start_after ++ 0 ∷ []
    else []

-- A marker that ends in the delimiter is a common prefix, whose group is passed over.
unfoldable pub v1_token : Request → Bytes
v1_token r =
    let marker = query_get (codes "marker") r in
    let delimiter = query_get (codes "delimiter") r in
    if bytes_eq marker []
    then []
    else if not (bytes_eq delimiter []) && has_suffix marker delimiter
    then prefix_successor marker
    else marker ++ 0 ∷ []

unfoldable pub list_request : Request → ℤ → ListRequest
list_request r max_keys = record {
  prefix = query_get (codes "prefix") r;
  delimiter = query_get (codes "delimiter") r;
  page_token = if is_v2 r then v2_token r else v1_token r;
  max_results = max_keys;
}

unfoldable pub contents_of : Host → Request → List ObjectInfo → List Contents
contents_of host r [] = []
contents_of host r (o ∷ objects) =
    record {
      key = encode_name r o.name;
      last_modified = host.iso8601 o.updated;
      etag = etag_for o;
      size = o.size;
      storage_class = codes "STANDARD";
    }
    ∷ contents_of host r objects

abbrev pub is_truncated : ListResult → Bool
is_truncated result = not (bytes_eq result.next_page_token [])

unfoldable pub v2_result : Host → Request → Bytes → ℤ → ListResult → ListBucketResultV2
v2_result host r bucket max_keys result = record {
  name = bucket;
  prefix = encode_name r (query_get (codes "prefix") r);
  delimiter = encode_name r (query_get (codes "delimiter") r);
  max_keys = max_keys;
  encoding_type = query_get (codes "encoding-type") r;
  key_count = length result.objects + length result.prefixes;
  is_truncated = is_truncated result;
  continuation_token = query_get (codes "continuation-token") r;
  next_continuation_token = result.next_page_token;
  start_after = encode_name r (query_get (codes "start-after") r);
  contents = contents_of host r result.objects;
  common_prefixes = map (encode_name r) result.prefixes;
}

-- The last element, the empty text if there is none.
abbrev pub last_of {ℓ} : {A : Type ℓ} → (A → Bytes) → List A → Bytes
last_of name [] = []
last_of name (x ∷ []) = name x
last_of name (x ∷ y ∷ xs) = last_of name (y ∷ xs)

-- The greater of the last object's name and the last common prefix.
unfoldable pub last_listed : ListResult → Bytes
last_listed result =
    let name = last_of (λ (o : ObjectInfo). o.name) result.objects in
    let prefix = last_of (λ p. p) result.prefixes in if bytes_lt name prefix then prefix else name

unfoldable pub v1_result : Host → Request → Bytes → ℤ → ListResult → ListBucketResultV1
v1_result host r bucket max_keys result = record {
  name = bucket;
  prefix = encode_name r (query_get (codes "prefix") r);
  delimiter = encode_name r (query_get (codes "delimiter") r);
  marker = encode_name r (query_get (codes "marker") r);
  next_marker = if is_truncated result then encode_name r (last_listed result) else [];
  max_keys = max_keys;
  encoding_type = query_get (codes "encoding-type") r;
  is_truncated = is_truncated result;
  contents = contents_of host r result.objects;
  common_prefixes = map (encode_name r) result.prefixes;
}

abbrev pub list_response : Host → Request → Bytes → ℤ → Result ListResult → Response
list_response host r bucket max_keys (err e) = write_store_error e (bucket_resource bucket)
list_response host r bucket max_keys (ok result) =
    if is_v2 r
    then write_xml 200 (list_v2_body (v2_result host r bucket max_keys result))
    else write_xml 200 (list_v1_body (v1_result host r bucket max_keys result))

abbrev pub list_with : Host → Request → Bytes → Option ℤ → Store → Response × Store
list_with host r bucket none st = (
  write_s3_error 400 (codes "InvalidArgument") (fixed (codes "invalid max-keys"))
      (bucket_resource bucket),
  st,
)
list_with host r bucket (some max_keys) st =
    let req = list_request r max_keys in
    let (listed, st') = list_objects_in host.env (host.fails 0) host.now bucket req st in
    (
      list_response host r bucket max_keys (
          from_some listed
            (list_objects_in-ne-none host.env (host.fails 0) host.now bucket req st)),
      st',
    )

unfoldable pub list_objects_handler : Host → Request → Bytes → Store → Response × Store
list_objects_handler host r bucket st = list_with host r bucket (max_keys_of r) st
