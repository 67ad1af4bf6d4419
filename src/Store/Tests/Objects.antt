-- ===== src/Store/Tests/Objects.antt =====
-- Putting, reading and deleting objects.
use objectstorage.Prelude.{◌≢◌, none, some, true, false, ◌≡◌, refl, arith}
use objectstorage.Prelude.Bytes.{codes, bytes_Eq, bytes_eq}
use objectstorage.Prelude.Dict.{get, put, remove}
use objectstorage.Prelude.Int.{pos, ◌<ℤ◌}
use objectstorage.Store.Types.{ok, err, ObjectInfo, PutOptions, call_failed, precondition_failed}
use objectstorage.Store.Conditions.{check}
use objectstorage.Store.Names.{valid_object_name}
use objectstorage.Store.Bucket.{
  Faults, no_faults, path_Eq, blob_path, select, get_object, delete_object, scan_object,
  decref_blob, delete_tx, decrement, rename,
}
use objectstorage.Store.Bucket.Invariant.{IsConsistent}
use objectstorage.Store.Writer.{
  new_blob_writer, write, install, commit, commit_body, new_info, commit_installed, commit_rows,
  release, next_generation, incref_blob,
}
use objectstorage.Store.Writer.Copy.{copy, put_object}
use objectstorage.Store.Writer.Consistent.{commit-IsConsistent}
use objectstorage.Store.Writer.Effects.{IsPut, commit-IsPut}
use objectstorage.Store.Writer.Conflicts.{commit-commit}
use objectstorage.Store.Writer.Outcome.{commit-refused}
use objectstorage.Store.Writer.ReadBack.{generation-commit, in_micros}
use objectstorage.Store.Tests.Data.{
  plain_env, red_text, empty_bucket, cat_chunks, cat_info, if_absent, dog_writer,
  dog_writer-IsSynced, staged_bucket, staged_bucket-IsConsistent, dog_info,
}

put_cat :
    (put_object plain_env no_faults 5000
      (codes "upload-0")
      (codes "a/cat")
      cat_chunks
      false
      red_text
      empty_bucket).0
    ≡ ok cat_info
unfolding put_object copy write new_blob_writer commit commit_body commit_installed commit_rows
    install valid_object_name bytes_eq get put blob_path check release next_generation
put_cat = refl

commit-IsConsistent_example :
    IsConsistent plain_env
      (commit plain_env no_faults 9000 (codes "a/cat") red_text dog_writer staged_bucket).2
commit-IsConsistent_example =
    commit-IsConsistent plain_env no_faults 9000 (codes "a/cat") red_text dog_writer staged_bucket
      dog_writer-IsSynced staged_bucket-IsConsistent

-- The blob of "cat" is not referred to any more, and its file is gone.
replaced_cat :
    get
      (blob_path (codes "cat"))
      (commit plain_env no_faults 9000 (codes "a/cat") red_text dog_writer staged_bucket).2.files
    ≡ none
unfolding put_object copy write new_blob_writer commit commit_body commit_installed commit_rows
    install valid_object_name bytes_eq get put blob_path check release next_generation scan_object
    select get_object decref_blob remove delete_object delete_tx incref_blob decrement
replaced_cat = refl

commit_dog :
    (commit plain_env no_faults 9000 (codes "a/cat") red_text dog_writer staged_bucket).0
    ≡ ok dog_info
unfolding put_object copy write new_blob_writer commit commit_body commit_installed commit_rows
    install valid_object_name bytes_eq get put blob_path check release next_generation scan_object
    select get_object decref_blob remove delete_object delete_tx incref_blob decrement
commit_dog = refl

commit-IsPut_example :
    IsPut plain_env no_faults 9000 dog_writer
      (codes "a/cat")
      red_text
      staged_bucket
      dog_info
      (commit plain_env no_faults 9000 (codes "a/cat") red_text dog_writer staged_bucket).2
commit-IsPut_example =
    commit-IsPut plain_env no_faults 9000 dog_writer (codes "a/cat") red_text staged_bucket dog_info
      commit_dog

abbrev full_disk : Faults
full_disk rename = true
full_disk call = false

commit_full :
    (commit plain_env full_disk 9000 (codes "a/cat") red_text dog_writer staged_bucket).0
    ≡ err call_failed
unfolding put_object copy write new_blob_writer commit commit_body commit_installed commit_rows
    install valid_object_name bytes_eq get put blob_path check release next_generation scan_object
    select get_object decref_blob remove delete_object delete_tx incref_blob decrement
commit_full = refl

abbrev owl_info : ObjectInfo
owl_info = new_info plain_env 9000 dog_writer (codes "photos") (codes "b/owl") (pos 9) red_text

commit_owl :
    (commit plain_env no_faults 9000 (codes "b/owl") red_text dog_writer staged_bucket).0
    ≡ ok owl_info
unfolding put_object copy write new_blob_writer commit commit_body commit_installed commit_rows
    install valid_object_name bytes_eq get put blob_path check release next_generation scan_object
    select get_object decref_blob remove delete_object delete_tx incref_blob decrement
commit_owl = refl

get_cat : get_object plain_env no_faults (codes "a/cat") staged_bucket ≡ ok (in_micros cat_info)
unfolding put_object copy write new_blob_writer commit commit_body commit_installed commit_rows
    install valid_object_name bytes_eq get put blob_path check release next_generation scan_object
    select get_object decref_blob remove delete_object delete_tx incref_blob decrement
get_cat = refl

generation-commit_example : ((in_micros cat_info).generation <ℤ dog_info.generation) ≡ true
generation-commit_example =
    generation-commit plain_env no_faults 9000 dog_writer (codes "a/cat") red_text staged_bucket
      dog_info commit_dog (in_micros cat_info) get_cat (ground arith)

select_cat :
    select plain_env no_faults staged_bucket.name (codes "a/cat") staged_bucket.tables
    ≡ ok (some (in_micros cat_info))
unfolding put_object copy write new_blob_writer commit commit_body commit_installed commit_rows
    install valid_object_name bytes_eq get put blob_path check release next_generation scan_object
    select get_object decref_blob remove delete_object delete_tx incref_blob decrement
select_cat = refl

abbrev new_text : PutOptions
new_text = record red_text { conditions = if_absent }

-- Another name, under which no object is live.
abbrev first_dog : ObjectInfo
first_dog = record dog_info { name = codes "a/dog"; generation = pos 9 }

commit_absent :
    (commit plain_env no_faults 9000 (codes "a/dog") new_text dog_writer staged_bucket).0
    ≡ ok first_dog
unfolding put_object copy write new_blob_writer commit commit_body commit_installed commit_rows
    install valid_object_name bytes_eq get put blob_path check release next_generation scan_object
    select get_object decref_blob remove delete_object delete_tx incref_blob decrement
commit_absent = refl

commit-commit_example :
    (commit plain_env no_faults 9500
      (codes "a/dog")
      new_text
      dog_writer
      (commit plain_env no_faults 9000 (codes "a/dog") new_text dog_writer staged_bucket).2).0
    ≢ ok first_dog
commit-commit_example =
    commit-commit plain_env no_faults no_faults 9000 9500 dog_writer dog_writer (codes "a/dog")
      new_text new_text staged_bucket (pos 0) first_dog first_dog commit_absent refl refl
      (ground arith) (ground arith)

refuses : check if_absent (some (in_micros cat_info)) ≡ some precondition_failed
unfolding put_object copy write new_blob_writer commit commit_body commit_installed commit_rows
    install valid_object_name bytes_eq get put blob_path check release next_generation scan_object
    select get_object decref_blob remove delete_object delete_tx incref_blob decrement
refuses = refl

fresh_dog : get (blob_path (codes "dog")) staged_bucket.files ≡ none
unfolding put_object copy write new_blob_writer commit commit_body commit_installed commit_rows
    install valid_object_name bytes_eq get put blob_path check release next_generation scan_object
    select get_object decref_blob remove delete_object delete_tx incref_blob decrement
fresh_dog = refl

valid_cat : valid_object_name (codes "a/cat") ≡ true
unfolding valid_object_name bytes_eq
valid_cat = refl

commit-refused_example :
    ((commit plain_env no_faults 9000 (codes "a/cat") new_text dog_writer staged_bucket).0
      ≡ err precondition_failed)
    × ((commit plain_env no_faults 9000 (codes "a/cat") new_text dog_writer staged_bucket).2.tables
        ≡ staged_bucket.tables)
    × (get
          (blob_path (codes "dog"))
          (commit plain_env no_faults 9000
            (codes "a/cat")
            new_text
            dog_writer
            staged_bucket).2.files
        ≡ some (codes "dog"))
commit-refused_example =
    commit-refused plain_env 9000 (codes "a/cat") new_text dog_writer staged_bucket
      (some (in_micros cat_info)) select_cat precondition_failed dog_writer-IsSynced valid_cat
      refuses fresh_dog

copy_cat : (copy cat_chunks false dog_writer staged_bucket).0 ≡ ok tt
unfolding copy write
copy_cat = refl
