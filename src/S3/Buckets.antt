-- ===== src/S3/Buckets.antt =====
-- pkg/s3/buckets.go: the handlers of the requests on buckets.
use objectstorage.Prelude.{List, [], ◌∷◌}
use objectstorage.Prelude.Bytes.{Bytes, codes}
use objectstorage.Store.Types.{Result, ok, err, BucketInfo}
use objectstorage.Store.Bucket.{Faults}
use objectstorage.Store.Buckets.{Store, list_buckets, create_bucket, get_bucket, delete_bucket}
use objectstorage.S3.Body.{Host, bucket_resource}
use objectstorage.S3.Xml.{
  default_owner, BucketEntry, buckets_body, empty_body, location_constraint, Response, reply,
  write_xml, write_store_error, status_for_store_error,
}

unfoldable pub bucket_entries : Host → List BucketInfo → List BucketEntry
bucket_entries host [] = []
bucket_entries host (info ∷ infos) =
    record { name = info.name; creation_date = host.iso8601 info.created }
    ∷ bucket_entries host infos

abbrev pub listed_response : Host → Result (List BucketInfo) → Response
listed_response host (err e) = write_store_error e (codes "/")
listed_response host (ok infos) =
    write_xml 200
      (buckets_body (record { owner = default_owner; buckets = bucket_entries host infos }))

-- `fails` says which calls fail for the bucket of a name.
unfoldable pub list_buckets_handler : Host → (Bytes → Faults) → Store → Response × Store
list_buckets_handler host fails st =
    let (result, st') = list_buckets (host.fails 0) fails host.now st in
    (listed_response host result, st')

abbrev pub create_response : Bytes → Result BucketInfo → Response
create_response bucket (err e) = write_store_error e (bucket_resource bucket)
create_response bucket (ok info) =
    reply 200 ((codes "location", bucket_resource bucket) ∷ []) empty_body

unfoldable pub create_bucket_handler : Host → Bytes → Store → Response × Store
create_bucket_handler host bucket st =
    let (result, st') = create_bucket (host.fails 0) host.now bucket st in
    (create_response bucket result, st')

-- A HEAD response carries no body.
abbrev pub head_response : Result BucketInfo → Response
head_response (err e) = reply (status_for_store_error e) [] empty_body
head_response (ok info) = reply 200 [] empty_body

unfoldable pub head_bucket : Host → Bytes → Store → Response × Store
head_bucket host bucket st =
    let (result, st') = get_bucket (host.fails 0) host.now bucket st in (head_response result, st')

abbrev pub removed_response : Bytes → Result (Unit {0}) → Response
removed_response bucket (err e) = write_store_error e (bucket_resource bucket)
removed_response bucket (ok done) = reply 204 [] empty_body

unfoldable pub delete_bucket_handler : Host → Bytes → Store → Response × Store
delete_bucket_handler host bucket st =
    let (result, st') = delete_bucket (host.fails 0) host.now bucket st in
    (removed_response bucket result, st')

abbrev pub location_response : Bytes → Result BucketInfo → Response
location_response bucket (err e) = write_store_error e (bucket_resource bucket)
location_response bucket (ok info) = write_xml 200 location_constraint

unfoldable pub get_bucket_location : Host → Bytes → Store → Response × Store
get_bucket_location host bucket st =
    let (result, st') = get_bucket (host.fails 0) host.now bucket st in
    (location_response bucket result, st')
