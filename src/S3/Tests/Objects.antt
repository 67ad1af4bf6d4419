-- ===== src/S3/Tests/Objects.antt =====
-- Objects of pkg/s3: one that is put in two chunks, a copy of another, and listings.
use objectstorage.Prelude.{some, true, [], ◌∷◌, ◌++◌, ◌≡◌, refl}
use objectstorage.Prelude.Bytes.{codes, bytes_eq, bytes_Eq, has_prefix}
use objectstorage.Prelude.Dict.{get, put, remove}
use objectstorage.Store.Types.{ok}
use objectstorage.Store.Names.{valid_bucket_name, valid_object_name}
use objectstorage.Store.Conditions.{check}
use objectstorage.Store.Bucket.{
  no_faults, blob_path, select, scan_object, decref_blob, decrement, open_object, get_object,
}
use objectstorage.Store.Writer.{
  new_blob_writer, write, install, commit, commit_body, commit_installed, commit_rows, release,
  next_generation, incref_blob,
}
use objectstorage.Store.Writer.Copy.{copy, put_object}
use objectstorage.Store.Buckets.{bucket, open_bucket, open_database, within, create_bucket}
use objectstorage.Store.Objects.{put_object_in, open_object_in}
use objectstorage.Store.Writer.ReadBack.{in_micros}
use objectstorage.Store.Tests.Data.{plain_env, cat_info}
use objectstorage.Store.Tests.Stores.{photos, photo_store, photo_store-IsSound, cat_store}
use objectstorage.Http.{put_method, Request, header_get, raw_pieces, pieces_of}
use objectstorage.Http.Text.{
  to_lower, contains, equal_fold, trim_prefix, path_unescape, cut_at, hex_encode,
}
use objectstorage.S3.Text.{
  trim_newline, before, trim_space, leading, trim_end, all_space, parse_int, hex_digits,
}
use objectstorage.S3.Chunked.{
  header_size, decode, read_all, read, read_headers, read_trailers, discard_crlf, new_reader,
}
use objectstorage.S3.Chunked.Decodes.{wire}
use objectstorage.S3.Body.{
  is_chunked, request_body, with_writes, put_options, metadata_from_headers, etag_for,
}
use objectstorage.S3.Xml.{write_xml, status_of}
use objectstorage.S3.Objects.{copy_options, copy_object, parse_copy_source}
use objectstorage.S3.Objects as S3Objects
use objectstorage.S3.Objects.ReadBack.{later, IsServed, get_object-put_wire}
use objectstorage.S3.Tests.Data.{host, request, got, bare-RoundTrips}
use objectstorage.S3.Tests.Chunked.{
  dog_frames, last_header, trailers, last_header-IsHeader, dog_frames-IsFramed,
}

abbrev pub dog_put : Request
dog_put =
    request put_method [] ((codes "content-encoding", codes "aws-chunked" ∷ []) ∷ [])
      (wire dog_frames (last_header ++ 10 ∷ trailers))

dog_put-is_chunked : is_chunked dog_put ≡ true
unfolding is_chunked has_prefix header_get get bytes_eq contains
dog_put-is_chunked = refl

pub dog_put-succeeds :
    status_of
      (S3Objects.put_object (host (codes "up-2")) dog_put photos (codes "a/dog") photo_store).0
    ≡ some 200
unfolding S3Objects.put_object put_object_in within bucket valid_bucket_name get create_bucket
    open_bucket open_database put bytes_eq put_object new_blob_writer copy with_writes request_body
    is_chunked contains hex_encode to_lower trim_prefix header_get pieces_of raw_pieces has_prefix
    remove etag_for metadata_from_headers put_options decode discard_crlf header_size new_reader
    read read_all read_headers read_trailers all_space before hex_digits leading parse_int trim_end
    trim_newline trim_space write_xml blob_path decref_blob decrement scan_object select check
    valid_object_name commit commit_body commit_installed commit_rows incref_blob install
    next_generation release write open_object_in open_object get_object copy_object
    parse_copy_source cut_at path_unescape equal_fold copy_options
dog_put-succeeds = refl

pub dog_options : (put_options dog_put).metadata ≡ []
unfolding put_options metadata_from_headers has_prefix to_lower
dog_options = refl

get_object-put_wire_example :
    IsServed
      (host (codes "up-2"))
      (codes "dog")
      (S3Objects.put_object (host (codes "up-2")) dog_put photos (codes "a/dog") photo_store).0
      (S3Objects.get_object
        (later 9000 (host (codes "up-2")))
        got
        photos
        (codes "a/dog")
        (S3Objects.put_object (host (codes "up-2")) dog_put photos (codes "a/dog") photo_store).1).0
get_object-put_wire_example =
    get_object-put_wire (host (codes "up-2")) 9000 dog_put got photos (codes "a/dog") photo_store
      (bare-RoundTrips (put_options dog_put) dog_options) (λ x y e. e) photo_store-IsSound
      dog_put-succeeds dog_frames last_header trailers dog_put-is_chunked dog_frames-IsFramed
      last_header-IsHeader refl refl

-- "a/cat" is copied to "a/dog".
abbrev pub cat_copy : Request
cat_copy = request put_method [] ((codes "x-amz-copy-source", codes "/photos/a/cat" ∷ []) ∷ []) []

pub cat_copy_runs :
    (status_of (copy_object (host (codes "up-2")) cat_copy photos (codes "a/dog") cat_store).0
      ≡ some 200)
    × (parse_copy_source (header_get (codes "x-amz-copy-source") cat_copy)
        ≡ some (photos, codes "a/cat"))
    × ((open_object_in plain_env no_faults 8000 photos (codes "a/cat") cat_store).0
        ≡ ok (in_micros cat_info, codes "cat"))
unfolding S3Objects.put_object put_object_in within bucket valid_bucket_name get create_bucket
    open_bucket open_database put bytes_eq put_object new_blob_writer copy with_writes request_body
    is_chunked contains hex_encode to_lower trim_prefix header_get pieces_of raw_pieces has_prefix
    remove etag_for metadata_from_headers put_options decode discard_crlf header_size new_reader
    read read_all read_headers read_trailers all_space before hex_digits leading parse_int trim_end
    trim_newline trim_space write_xml blob_path decref_blob decrement scan_object select check
    valid_object_name commit commit_body commit_installed commit_rows incref_blob install
    next_generation release write open_object_in open_object get_object copy_object
    parse_copy_source cut_at path_unescape equal_fold copy_options
cat_copy_runs = (refl, refl, refl)

cat_options : (copy_options cat_copy (in_micros cat_info)).metadata ≡ cat_info.metadata
unfolding copy_options equal_fold to_lower bytes_eq header_get get
cat_options = refl
