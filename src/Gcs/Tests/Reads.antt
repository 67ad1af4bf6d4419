-- ===== src/Gcs/Tests/Reads.antt =====
-- Reads of pkg/gcs at concrete inputs.
use objectstorage.Prelude.{none, some, if◌then◌else◌, [], ◌∷◌, ◌≡◌, ◌↔◌, refl, arith}
use objectstorage.Prelude.Bytes.{codes, bytes_eq, bytes_Eq}
use objectstorage.Prelude.Dict.{get}
use objectstorage.Prelude.Int.{pos, ◌==ℤ◌}
use objectstorage.Store.Types.{object_not_found}
use objectstorage.Store.Bucket.{no_faults}
use objectstorage.Store.Buckets.Sound.{IsSound}
use objectstorage.Store.Writer.ReadBack.{in_micros}
use objectstorage.Store.Tests.Data.{plain_env, if_absent, cat_info}
use objectstorage.Store.Tests.Stores.{
  photos, photo_store, photo_store-IsSound, cat_store, cat_store-IsSound,
}
use objectstorage.Http.{get_method, Request, query_get}
use objectstorage.Http.Print.{print_digits, format_int}
use objectstorage.S3.Chunked.{flatten}
use objectstorage.S3.Body.{request_body, put_options}
use objectstorage.S3.Objects.{put_object}
use objectstorage.S3.Tests.Data.{host, request, got, bare-RoundTrips}
use objectstorage.S3.Tests.Objects.{dog_put, dog_put-succeeds, dog_options, cat_copy_runs}
use objectstorage.Gcs.Conditions.{parse_conditions, check_generation_param}
use objectstorage.Gcs.Conditions.Params.{
  parse_conditions-param_of, check_generation_param-format_int,
}
use objectstorage.Gcs.Resources.{Host, media}
use objectstorage.Gcs.Objects.{media_headers, serve_media}
use objectstorage.Gcs.Objects.Reads.{Allows, serve_media_iff}
use objectstorage.Gcs.Objects.Shared.{IsShared, serve_media-put_object}
use objectstorage.Gcs.Server.{handle_storage_v1}
use objectstorage.Gcs.Server.Kept.{handle_storage_v1-IsSound}

abbrev plain_host : Host
plain_host = record {
  env = plain_env;
  now = 8000;
  fails = no_faults;
  bucket_fails = λ bucket. no_faults;
  rfc3339 = λ t. [];
  base64 = λ s. s;
  decode_name = λ b x. some b;
}

serve_media-put_object_example :
    IsShared plain_env plain_host photos
      (codes "a/dog")
      (flatten (request_body (host (codes "up-2")) dog_put).0)
      (put_object (host (codes "up-2")) dog_put photos (codes "a/dog") photo_store).0
      (put_object (host (codes "up-2")) dog_put photos (codes "a/dog") photo_store).1
serve_media-put_object_example =
    serve_media-put_object (host (codes "up-2")) plain_host dog_put photos (codes "a/dog")
      photo_store (bare-RoundTrips (put_options dog_put) dog_options) (λ x y e. e)
      photo_store-IsSound dog_put-succeeds

serve_media_iff_example :
    ((serve_media plain_host got photos (codes "a/cat") cat_store).0
      ≡ media
          (media_headers plain_host (in_micros cat_info))
          (in_micros cat_info).updated
          (codes "cat"))
    ↔ Allows got (in_micros cat_info)
serve_media_iff_example =
    serve_media_iff plain_host got photos (codes "a/cat") cat_store (in_micros cat_info)
      (codes "cat") cat_copy_runs.2

-- Only if no object is there, and generation 12.
abbrev twelve : Request
twelve =
    request get_method
      ((codes "ifGenerationMatch", codes "0") ∷ (codes "generation", codes "12") ∷ []) [] []

twelve-params :
    (query_get (codes "ifGenerationMatch") twelve ≡ format_int (pos 0))
    × (query_get (codes "ifGenerationNotMatch") twelve ≡ [])
    × (query_get (codes "ifMetagenerationMatch") twelve ≡ [])
    × (query_get (codes "ifMetagenerationNotMatch") twelve ≡ [])
    × (query_get (codes "generation") twelve ≡ format_int (pos 12))
unfolding query_get get bytes_eq format_int print_digits
twelve-params = (refl, refl, refl, refl, refl)

parse_conditions-param_of_example : parse_conditions twelve ≡ some if_absent
parse_conditions-param_of_example =
    let (a, b, c, d, _) = twelve-params in
    parse_conditions-param_of twelve if_absent (ground arith) tt tt tt a b c d

check_generation_param-format_int_example :
    check_generation_param twelve (pos 7)
    ≡ (if pos 12 ==ℤ pos 7 then none else some object_not_found)
check_generation_param-format_int_example =
    let (_, _, _, _, e) = twelve-params in
    check_generation_param-format_int twelve (pos 12) (pos 7) (ground arith) e

handle_storage_v1-IsSound_example :
    IsSound plain_env
      (handle_storage_v1 plain_host got
        (photos ∷ codes "o" ∷ codes "a" ∷ codes "cat" ∷ [])
        cat_store).1
handle_storage_v1-IsSound_example =
    handle_storage_v1-IsSound plain_host got cat_store cat_store-IsSound
      (photos ∷ codes "o" ∷ codes "a" ∷ codes "cat" ∷ [])
