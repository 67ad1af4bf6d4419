-- ===== src/Store/Tests/Deletes.antt =====
-- Deleting objects, opening them, and preconditions.
use objectstorage.Prelude.{some, ◌≡◌, refl}
use objectstorage.Prelude.Bytes.{codes, bytes_eq, bytes_Eq}
use objectstorage.Prelude.Dict.{get, put, remove}
use objectstorage.Store.Types.{ok, err, object_not_found}
use objectstorage.Store.Conditions.{check}
use objectstorage.Store.Names.{valid_object_name}
use objectstorage.Store.Bucket.{
  no_faults, blob_path, select, get_object, delete_object, scan_object, decref_blob, delete_tx,
  decrement,
}
use objectstorage.Store.Bucket.Invariant.{IsConsistent}
use objectstorage.Store.Bucket.Delete.{delete_object-IsConsistent}
use objectstorage.Store.Bucket.Deleted.{IsDeleted, delete_object-IsDeleted}
use objectstorage.Store.Writer.{
  new_blob_writer, write, install, commit, commit_body, commit_installed, commit_rows, release,
  next_generation, incref_blob,
}
use objectstorage.Store.Writer.Copy.{copy, put_object}
use objectstorage.Store.Writer.ReadBack.{in_micros}
use objectstorage.Store.Tests.Data.{
  plain_env, no_conditions, cat_bucket, cat_bucket-IsConsistent, cat_info,
}

delete_object-IsConsistent_example :
    IsConsistent plain_env
      (delete_object plain_env no_faults (codes "a/cat") no_conditions cat_bucket).1
delete_object-IsConsistent_example =
    delete_object-IsConsistent plain_env no_faults (codes "a/cat") no_conditions cat_bucket
      cat_bucket-IsConsistent

delete_cat : (delete_object plain_env no_faults (codes "a/cat") no_conditions cat_bucket).0 ≡ ok tt
unfolding put_object copy write new_blob_writer commit commit_body commit_installed commit_rows
    install valid_object_name bytes_eq get put blob_path check release next_generation scan_object
    select get_object decref_blob remove delete_object delete_tx decrement incref_blob
delete_cat = refl

delete_object-IsDeleted_example :
    IsDeleted plain_env no_faults
      (codes "a/cat")
      no_conditions
      cat_bucket
      (delete_object plain_env no_faults (codes "a/cat") no_conditions cat_bucket).1
delete_object-IsDeleted_example =
    delete_object-IsDeleted plain_env no_faults (codes "a/cat") no_conditions cat_bucket
      cat_bucket-IsConsistent refl delete_cat

delete_dog :
    (delete_object plain_env no_faults (codes "a/dog") no_conditions cat_bucket).0
    ≡ err object_not_found
unfolding put_object copy write new_blob_writer commit commit_body commit_installed commit_rows
    install valid_object_name bytes_eq get put blob_path check release next_generation scan_object
    select get_object decref_blob remove delete_object delete_tx decrement incref_blob
delete_dog = refl

select_live :
    select plain_env no_faults cat_bucket.name (codes "a/cat") cat_bucket.tables
    ≡ ok (some (in_micros cat_info))
unfolding put_object copy write new_blob_writer commit commit_body commit_installed commit_rows
    install valid_object_name bytes_eq get put blob_path check release next_generation scan_object
    select get_object decref_blob remove delete_object delete_tx decrement incref_blob
select_live = refl

get_live : get_object plain_env no_faults (codes "a/cat") cat_bucket ≡ ok (in_micros cat_info)
unfolding put_object copy write new_blob_writer commit commit_body commit_installed commit_rows
    install valid_object_name bytes_eq get put blob_path check release next_generation scan_object
    select get_object decref_blob remove delete_object delete_tx decrement incref_blob
get_live = refl
