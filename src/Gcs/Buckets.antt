-- ===== src/Gcs/Buckets.antt =====
-- pkg/gcs/buckets.go: the handlers of the requests on buckets.
use objectstorage.Prelude.{Option, none, some, List, [], ◌∷◌}
use objectstorage.Prelude.Bytes.{Bytes, codes}
use objectstorage.Store.Types.{Result, ok, err, BucketInfo}
use objectstorage.Store.Buckets.{Store, list_buckets, create_bucket, get_bucket, delete_bucket}
use objectstorage.Http.{Request}
use objectstorage.Gcs.Resources.{
  Host, BucketResource, of_decoder, bucket_json, buckets_json, Response, no_content, write_json,
  write_error, write_store_error, to_bucket_resource,
}

abbrev pub bucket_response : Host → Result BucketInfo → Response
bucket_response host (err e) = write_store_error e
bucket_response host (ok info) = write_json 200 (bucket_json (to_bucket_resource host info))

abbrev pub create_named : Host → Option Bytes → Store → Response × Store
create_named host none st = (write_error 400 (codes "invalid") of_decoder, st)
create_named host (some name) st =
    let (result, st') = create_bucket host.fails host.now name st in
    (bucket_response host result, st')

unfoldable pub create_bucket_handler : Host → Request → Store → Response × Store
create_bucket_handler host r st = create_named host (host.decode_name r.body r.broken) st

unfoldable pub get_bucket_handler : Host → Bytes → Store → Response × Store
get_bucket_handler host name st =
    let (result, st') = get_bucket host.fails host.now name st in (bucket_response host result, st')

unfoldable pub bucket_resources : Host → List BucketInfo → List BucketResource
bucket_resources host [] = []
bucket_resources host (info ∷ infos) = to_bucket_resource host info ∷ bucket_resources host infos

abbrev pub listed_response : Host → Result (List BucketInfo) → Response
listed_response host (err e) = write_store_error e
listed_response host (ok infos) =
    write_json 200 (
      buckets_json (record { kind = codes "storage#buckets"; items = bucket_resources host infos }))

unfoldable pub list_buckets_handler : Host → Store → Response × Store
list_buckets_handler host st =
    let (result, st') = list_buckets host.fails host.bucket_fails host.now st in
    (listed_response host result, st')

abbrev pub removed_response : Result (Unit {0}) → Response
removed_response (err e) = write_store_error e
removed_response (ok done) = no_content

unfoldable pub delete_bucket_handler : Host → Bytes → Store → Response × Store
delete_bucket_handler host name st =
    let (result, st') = delete_bucket host.fails host.now name st in (removed_response result, st')
