-- ===== src/Gcs/Tests.antt =====
-- The theorems about uploads at concrete inputs.
pub mod Reads
use objectstorage.Prelude.{Option, none, some, true, false, [], ◌∷◌, ◌++◌, ◌≡◌, refl, arith}
use objectstorage.Prelude.Bytes.{Bytes, codes, bytes_eq, bytes_Eq}
use objectstorage.Prelude.Dict.{get, put, remove}
use objectstorage.Store.Conditions.{check}
use objectstorage.Store.Names.{valid_object_name}
use objectstorage.Store.Bucket.{
  Bucket, no_faults, blob_path, select, scan_object, decref_blob, decrement,
}
use objectstorage.Store.Writer.{
  new_blob_writer, write, checksums, install, commit, commit_body, commit_installed, commit_rows,
  release, next_generation, incref_blob,
}
use objectstorage.Store.Writer.Copy.{copy, put_object}
use objectstorage.Store.Tests.Data.{
  plain_env, color_red, no_conditions, dog_writer, dog_writer-IsSynced, staged_bucket, dog_info,
  cat_chunks,
}
use objectstorage.Gcs.Upload.{
  ObjectMetadata, Reply, complete, incomplete, refused, commit_upload, Session, chunk, receive,
  handle_resumable_chunk,
}
use objectstorage.Gcs.Upload.Commit.{IsChecked, commit_upload-refused, commit_upload-IsChecked}
use objectstorage.Gcs.Upload.Broken.{handle_resumable_chunk-broken}
use objectstorage.Gcs.Upload.Resume.{IsStreaming, Resumed, added, handle_resumable_chunk-Resumed}

-- The MD5 sum of "dog" is supplied; decoding drops nothing.
abbrev dog_meta : ObjectMetadata
dog_meta = record {
  name = codes "a/cat";
  content_type = codes "text/plain";
  metadata = color_red;
  md5_hash = codes "dog";
  crc32c = [];
}

abbrev wrong_meta : ObjectMetadata
wrong_meta = record dog_meta { md5_hash = codes "cow" }

abbrev decode : Bytes → Option Bytes
decode s = some s

refuses_cow :
    (commit_upload plain_env decode no_faults 9000 wrong_meta no_conditions dog_writer
      staged_bucket).0
    ≡ refused 400
unfolding commit_upload checksums bytes_eq
refuses_cow = refl

accepts_dog :
    (commit_upload plain_env decode no_faults 9000 dog_meta no_conditions dog_writer
      staged_bucket).0
    ≡ complete dog_info
unfolding commit_upload checksums put_object copy write new_blob_writer commit commit_body
    commit_installed commit_rows install valid_object_name bytes_eq get put remove blob_path check
    release next_generation scan_object select decref_blob decrement incref_blob
accepts_dog = refl

commit_upload-IsChecked_example : IsChecked decode dog_meta dog_info
commit_upload-IsChecked_example =
    commit_upload-IsChecked plain_env decode no_faults 9000 dog_meta no_conditions dog_writer
      staged_bucket dog_info accepts_dog

abbrev dog_session : Session
dog_session = record {
  meta = dog_meta;
  conds = no_conditions;
  bw = dog_writer;
  offset = 3;
  done = false;
}

dog_session-IsStreaming : IsStreaming dog_session staged_bucket
dog_session-IsStreaming = record { is_open = refl; synced = dog_writer-IsSynced; offset = refl }

three_more :
    (handle_resumable_chunk plain_env decode no_faults 9000
      (chunk 3 5 none)
      cat_chunks
      false
      dog_session
      staged_bucket).0
    ≡ incomplete 6
unfolding handle_resumable_chunk receive copy write
three_more = refl

handle_resumable_chunk-Resumed_example :
    Resumed dog_session
      (added (chunk 3 5 none) cat_chunks 3)
      6
      (handle_resumable_chunk plain_env decode no_faults 9000
        (chunk 3 5 none)
        cat_chunks
        false
        dog_session
        staged_bucket).1
      (handle_resumable_chunk plain_env decode no_faults 9000
        (chunk 3 5 none)
        cat_chunks
        false
        dog_session
        staged_bucket).2
handle_resumable_chunk-Resumed_example =
    handle_resumable_chunk-Resumed plain_env decode no_faults 9000 (chunk 3 5 none) cat_chunks false
      dog_session staged_bucket 6 dog_session-IsStreaming three_more

-- The chunk breaks off after "ca", and is sent again.
abbrev broken_cat : Reply × Session × Bucket
broken_cat =
    handle_resumable_chunk plain_env decode no_faults 9000 (chunk 3 5 none) ((codes "ca", 2) ∷ [])
      true dog_session staged_bucket

again_cat :
    (handle_resumable_chunk plain_env decode no_faults 9000
      (chunk 3 5 none)
      cat_chunks
      false
      broken_cat.1
      broken_cat.2).0
    ≡ incomplete 6
unfolding handle_resumable_chunk receive copy write
again_cat = refl

handle_resumable_chunk-broken_example :
    let last =
      (handle_resumable_chunk plain_env decode no_faults 9000
        (chunk 3 5 none)
        cat_chunks
        false
        broken_cat.1
        broken_cat.2).1 in
    (broken_cat.0 ≡ refused 500)
    × (broken_cat.1.done ≡ false)
    × (broken_cat.1.offset ≡ 3)
    × (last.offset ≡ 6)
    × (last.bw.sha ≡ codes "dog" ++ codes "ca" ++ codes "cat")
handle_resumable_chunk-broken_example =
    handle_resumable_chunk-broken plain_env decode no_faults 9000 3 5 none ((codes "ca", 2) ∷ [])
      cat_chunks dog_session broken_cat.1 staged_bucket broken_cat.2 broken_cat.0 6
      dog_session-IsStreaming refl (ground arith) refl again_cat
