-- ===== src/S3/Tests/Uploads.antt =====
-- An upload of pkg/s3 in two parts, from its start to its completion.
use objectstorage.Prelude.{
  ℕ, ◌≤◌, not, ◌&&◌, if◌then◌else◌, List, none, some, false, [], ◌∷◌, ◌≡◌, refl, arith, Bool-cases,
  inl, inr,
}
use objectstorage.Prelude.Bytes.{Bytes, codes, bytes_eq, bytes_Eq, has_prefix}
use objectstorage.Prelude.Dict.{get, put, remove}
use objectstorage.Prelude.Int.{ℤ, pos, ◌==ℤ◌}
use objectstorage.Store.Names.{valid_bucket_name}
use objectstorage.Store.Bucket.{no_faults, path_Eq, remove_temp, info, temp, Bucket}
use objectstorage.Store.Names.{ends_well}
use objectstorage.Store.Buckets.{
  create_bucket, get_bucket, bucket, open_bucket, open_database, within, content,
}
use objectstorage.Store.Objects.{temp_file, create_part}
use objectstorage.Store.Buckets.Sound.{IsSound}
use objectstorage.Store.Tests.Data.{plain_env}
use objectstorage.Store.Tests.Stores.{photos, photo_store, photo_store-IsSound}
use objectstorage.Http.{
  put_method, post_method, Request, query_get, header_get, raw_pieces, pieces_of,
}
use objectstorage.Http.Text.{
  to_lower, contains, trim_prefix, hex_encode, atoi, decimal, trim, trim_right, trim_left,
}
use objectstorage.S3.Text.{
  trim_newline, before, trim_space, leading, trim_end, all_space, parse_int, hex_digits,
}
use objectstorage.S3.Chunked.{
  header_size, decode, read_all, read, read_headers, read_trailers, discard_crlf, new_reader,
}
use objectstorage.S3.Body.{is_chunked, request_body, with_writes, metadata_from_headers}
use objectstorage.S3.Xml.{CompletedPart, status_of, write_xml, write_s3_error, write_store_error}
use objectstorage.S3.Multipart.{
  StagedPart, MultipartUpload, Server, initiate_multipart_upload, lookup_upload, upload_part, ℤ_Eq,
  part_number_of, copy_part, edit_files, remove_part, attach_part, finish_upload,
}
use objectstorage.S3.Multipart.Complete.{check_parts, is_sorted, complete_multipart_upload}
use objectstorage.S3.Multipart.Staged.{IsAttached, body, upload_part-IsAttached}
use objectstorage.S3.Multipart.Files.{IsOther, file_at}
use objectstorage.S3.Multipart.Ends.{attach_part-finish_upload, complete_multipart_upload-refused}
use objectstorage.S3.Server.{new_server, serve_http}
use objectstorage.S3.Server.Runs.{starts, serves, Runs-IsSound}
use objectstorage.S3.Tests.Data.{host, request}

abbrev dog : Bytes
dog = codes "a/dog"

abbrev started : Server
started =
    (initiate_multipart_upload (host (codes "up")) (request post_method [] [] []) photos dog
      (record { store = photo_store; uploads = []; current = [] })).1

abbrev dog_part : Bytes → Bytes → Request
dog_part number content =
    request put_method ((codes "uploadId", codes "41") ∷ (codes "partNumber", number) ∷ []) []
      content

abbrev first_part : Server
first_part =
    (upload_part (host (codes "p1")) (dog_part (codes "1") (codes "big ")) photos dog started).1

abbrev completion : Request
completion = request post_method ((codes "uploadId", codes "41") ∷ []) [] []

-- The upload after its first part.
abbrev dog_upload : MultipartUpload
dog_upload = record {
  bucket = photos;
  key = dog;
  content_type = [];
  metadata = [];
  parts = (pos 1, record { temp_name = codes "p1"; size = 4; md5 = codes "big " }) ∷ [];
  done = false;
}

first_part_runs :
    (lookup_upload (dog_part (codes "2") (codes "dog")) photos dog first_part ≡ some dog_upload)
    × (status_of
          (upload_part
            (host (codes "p2"))
            (dog_part (codes "2") (codes "dog"))
            photos
            dog
            first_part).0
        ≡ some 200)
unfolding lookup_upload get put remove upload_part initiate_multipart_upload get_bucket bucket
    valid_bucket_name create_bucket open_bucket open_database bytes_eq hex_encode query_get
    part_number_of atoi temp_file contains decimal to_lower trim_prefix header_get pieces_of
    raw_pieces has_prefix is_chunked metadata_from_headers request_body with_writes decode
    discard_crlf header_size new_reader read read_all read_headers read_trailers attach_part
    copy_part edit_files remove_part all_space before hex_digits leading parse_int trim_end
    trim_newline trim_space write_s3_error write_store_error write_xml info within ends_well
    create_part
first_part_runs = (refl, refl)

second_names : (n : ℤ) → IsOther (codes "p2") (get n dog_upload.parts)
unfolding get bytes_eq
second_names n = elim (Bool-cases (pos 1 ==ℤ n)) [ inl p ↦ rw p (ground arith) | inr p ↦ rw p tt ]

upload_part-IsAttached_example :
    (n : ℕ) × (1 ≤ n)
    × (n ≤ 10000)
    × (atoi (query_get (codes "partNumber") (dog_part (codes "2") (codes "dog"))) ≡ some (pos n))
    × IsAttached
        (host (codes "p2"))
        photos
        dog
        (query_get (codes "uploadId") (dog_part (codes "2") (codes "dog")))
        (pos n)
        dog_upload
        (body (host (codes "p2")) (dog_part (codes "2") (codes "dog")) photos dog first_part)
        (upload_part (host (codes "p2")) (dog_part (codes "2") (codes "dog")) photos dog first_part)
upload_part-IsAttached_example =
    upload_part-IsAttached (host (codes "p2")) (dog_part (codes "2") (codes "dog")) photos dog
      first_part dog_upload first_part_runs.0 second_names first_part_runs.1

-- Both parts are there.
abbrev second_part : Server
second_part =
    (upload_part (host (codes "p2")) (dog_part (codes "2") (codes "dog")) photos dog first_part).1

abbrev parted : MultipartUpload
parted = record dog_upload {
  parts =
      (pos 2, record { temp_name = codes "p2"; size = 3; md5 = codes "dog" })
      ∷ (pos 1, record { temp_name = codes "p1"; size = 4; md5 = codes "big " })
      ∷ [];
}

abbrev parted_bucket : Bucket
parted_bucket = record {
  name = photos;
  bucket_info = record { created = 4; metageneration = pos 1 };
  tables = record { objects = []; blobs = [] };
  files = (temp (codes "p2"), codes "dog") ∷ (temp (codes "p1"), codes "big ") ∷ [];
}

abbrev staged : List StagedPart
staged =
    record { temp_name = codes "p1"; size = 4; md5 = codes "big " }
    ∷ record { temp_name = codes "p2"; size = 3; md5 = codes "dog" }
    ∷ []

abbrev asked_for : List CompletedPart
asked_for =
    record { part_number = pos 1; etag = [] } ∷ record { part_number = pos 2; etag = [] } ∷ []

first_part-refused :
    status_of (complete_multipart_upload (host (codes "up-2")) completion photos dog first_part).0
    ≡ some 400
unfolding lookup_upload get put remove upload_part initiate_multipart_upload get_bucket bucket
    valid_bucket_name create_bucket open_bucket open_database bytes_eq hex_encode query_get
    part_number_of atoi temp_file contains decimal to_lower trim_prefix header_get pieces_of
    raw_pieces has_prefix is_chunked metadata_from_headers request_body with_writes decode
    discard_crlf header_size new_reader read read_all read_headers read_trailers attach_part
    copy_part edit_files remove_part all_space before hex_digits leading parse_int trim_end
    trim_newline trim_space write_s3_error write_store_error write_xml info within ends_well
    create_part complete_multipart_upload check_parts is_sorted trim trim_right trim_left
first_part-refused = refl

-- The upload is there, but its second part is not.
complete_multipart_upload-refused_example :
    ((complete_multipart_upload (host (codes "up-2")) completion photos dog first_part).1.uploads
      ≡ first_part.uploads)
    × ((complete_multipart_upload (host (codes "up-2")) completion photos dog first_part).1.current
        ≡ first_part.current)
complete_multipart_upload-refused_example =
    complete_multipart_upload-refused (host (codes "up-2")) photos dog first_part completion
      (λ q. ground (arith, q, first_part-refused))

abbrev third_part : StagedPart
third_part = record { temp_name = codes "p3"; size = 0; md5 = [] }

-- Its file is there.
abbrev third_staged : Server
third_staged = record second_part {
  store = edit_files photos (put (temp (codes "p3")) (codes "!")) second_part.store;
}

-- A third part arrives after the end of the upload.
attach_part-finish_upload_example :
    let ended = finish_upload (host (codes "up-2")) (codes "41") parted third_staged in
    let made =
      attach_part
        (host (codes "p4"))
        photos
        dog
        (codes "41")
        (pos 3)
        third_part
        (get (codes "41") ended.uploads)
        ended in
    (status_of made.0 ≡ some 404)
    × (made.1.uploads ≡ ended.uploads)
    × (made.1.current ≡ ended.current)
    × (file_at photos (codes "p3") made.1.store ≡ (
        if bytes_eq (codes "p3") (codes "p3") && not ((host (codes "p4")).fails 0 remove_temp)
        then none
        else file_at photos (codes "p3") ended.store))
attach_part-finish_upload_example =
    attach_part-finish_upload (host (codes "up-2")) photos dog third_staged (host (codes "p4"))
      (codes "41") parted (pos 3) third_part (codes "p3")

abbrev dog_put : Request
dog_put = request put_method [] [] (codes "dog")

-- A server that is started on a store, and a request to it.
Runs-IsSound_example :
    IsSound plain_env
      (serve_http
        (host (codes "up-2"))
        (λ bucket. no_faults)
        dog_put
        []
        (new_server photo_store)).1.store
unfolding new_server
Runs-IsSound_example =
    Runs-IsSound plain_env (new_server photo_store)
      (serve_http (host (codes "up-2")) (λ bucket. no_faults) dog_put [] (new_server photo_store)).1
      photo_store-IsSound
      (serves (new_server photo_store) (host (codes "up-2")) (λ bucket. no_faults) dog_put [] refl
        starts)
