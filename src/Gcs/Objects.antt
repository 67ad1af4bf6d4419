-- ===== src/Gcs/Objects.antt =====
-- pkg/gcs/objects.go and pkg/gcs/download.go: the handlers of the requests on objects that read, list and
-- delete.
pub mod Reads
pub mod Kept
pub mod Shared
use objectstorage.Prelude.{ℕ, Option, none, some, Bool, if◌then◌else◌, List, [], ◌∷◌, ◌++◌}
use objectstorage.Prelude.Bytes.{Bytes, codes, bytes_eq, bytes_Eq}
use objectstorage.Prelude.Dict.{Dict}
use objectstorage.Prelude.Int.{ℤ, pos}
use objectstorage.Store.Types.{
  Error, Result, ok, err, Env, ObjectInfo, Conditions, ListRequest, ListResult,
}
use objectstorage.Store.Buckets.{Store}
use objectstorage.Store.Objects.{get_object_in, open_object_in, delete_object_in, list_objects_in}
use objectstorage.Store.Objects.Lists.{list_objects_in-ne-none}
use objectstorage.Http.{Request, query_get, from_some}
use objectstorage.Http.Text.{atoi}
use objectstorage.Http.Print.{format_int}
use objectstorage.Gcs.Conditions.{check_read_conditions, parse_conditions, check_generation_param}
use objectstorage.Gcs.Resources.{
  Host, ObjectResource, fixed, of_parser, object_json, objects_json, Response, no_content, media,
  write_json, write_error, write_store_error, encode_crc32c, generation_tag, to_object_resource,
}

abbrev pub failed_or : Option Error → Response → Response
failed_or none x = x
failed_or (some e) x = write_store_error e

abbrev pub conditions_checked : ObjectInfo → Option Conditions → Response → Response
conditions_checked o none x = write_error 400 (codes "invalid") of_parser
conditions_checked o (some conds) x = failed_or (check_read_conditions conds o) x

-- The checks that both kinds of read make of an object that is there.
unfoldable pub read_checked : Request → ObjectInfo → Response → Response
read_checked r o x =
    failed_or (check_generation_param r o.generation) (conditions_checked o (parse_conditions r) x)

abbrev pub get_response : Host → Request → Result ObjectInfo → Response
get_response host r (err e) = write_store_error e
get_response host r (ok o) =
    read_checked r o (write_json 200 (object_json (to_object_resource host o)))

unfoldable pub get_object : Host → Request → Bytes → Bytes → Store → Response × Store
get_object host r bucket object st =
    let (result, st') = get_object_in host.env host.fails host.now bucket object st in
    (get_response host r result, st')

abbrev pub delete_response : Result (Unit {0}) → Response
delete_response (err e) = write_store_error e
delete_response (ok done) = no_content

abbrev pub delete_parsed : Host → Bytes → Bytes → Option Conditions → Store → Response × Store
delete_parsed host bucket object none st = (write_error 400 (codes "invalid") of_parser, st)
delete_parsed host bucket object (some conds) st =
    let (result, st') = delete_object_in host.env host.fails host.now bucket object conds st in
    (delete_response result, st')

unfoldable pub delete_object : Host → Request → Bytes → Bytes → Store → Response × Store
delete_object host r bucket object st = delete_parsed host bucket object (parse_conditions r) st

-- `none` where the parameter is no number; 0 where there is none.
abbrev pub max_results_param : Request → Option ℤ
max_results_param r =
    let v = query_get (codes "maxResults") r in if bytes_eq v [] then some (pos 0) else atoi v

abbrev pub list_request : Request → ℤ → ListRequest
list_request r max_results = record {
  prefix = query_get (codes "prefix") r;
  delimiter = query_get (codes "delimiter") r;
  page_token = query_get (codes "pageToken") r;
  max_results = max_results;
}

unfoldable pub object_resources : Host → List ObjectInfo → List ObjectResource
object_resources host [] = []
object_resources host (o ∷ os) = to_object_resource host o ∷ object_resources host os

abbrev pub list_response : Host → Result ListResult → Response
list_response host (err e) = write_store_error e
list_response host (ok result) = write_json 200 (
    objects_json (record {
      kind = codes "storage#objects";
      items = object_resources host result.objects;
      prefixes = result.prefixes;
      next_page_token = result.next_page_token;
    }))

abbrev pub list_with : Host → Request → Bytes → Option ℤ → Store → Response × Store
list_with host r bucket none st =
    (write_error 400 (codes "invalid") (fixed (codes "invalid maxResults")), st)
list_with host r bucket (some max_results) st =
    let req = list_request r max_results in
    let (listed, st') = list_objects_in host.env host.fails host.now bucket req st in
    (
      list_response host
          (from_some listed (list_objects_in-ne-none host.env host.fails host.now bucket req st)),
      st',
    )

unfoldable pub list_objects_handler : Host → Request → Bytes → Store → Response × Store
list_objects_handler host r bucket st = list_with host r bucket (max_results_param r) st

unfoldable pub media_headers : Host → ObjectInfo → Dict Bytes Bytes
media_headers host o =
    (
      codes "content-type",
      if bytes_eq o.content_type [] then codes "application/octet-stream" else o.content_type,
    )
    ∷ (codes "x-goog-generation", format_int o.generation)
    ∷ (codes "x-goog-metageneration", format_int o.metageneration)
    ∷ (codes "x-goog-stored-content-length", format_int (pos o.size))
    ∷ (codes "x-goog-stored-content-encoding", codes "identity")
    ∷ (codes "x-goog-storage-class", codes "STANDARD")
    ∷ (
      codes "x-goog-hash",
      codes "crc32c=" ++ encode_crc32c host.base64 o.crc32c ++ codes ",md5=" ++ host.base64 o.md5,
    )
    ∷ (codes "etag", generation_tag o)
    ∷ []

abbrev pub media_response : Host → Request → Result (ObjectInfo × Bytes) → Response
media_response host r (err e) = write_store_error e
media_response host r (ok (o, content)) =
    read_checked r o (media (media_headers host o) o.updated content)

unfoldable pub serve_media : Host → Request → Bytes → Bytes → Store → Response × Store
serve_media host r bucket object st =
    let (result, st') = open_object_in host.env host.fails host.now bucket object st in
    (media_response host r result, st')
