-- ===== src/Store/Tests/Stores.antt =====
-- Buckets and objects of a store: a store is opened on an empty directory, a bucket is created in it,
-- and an object is put into that.
use objectstorage.Prelude.{◌<◌, some, true, false, [], ◌∷◌, ◌≡◌, refl, arith, length, subst}
use objectstorage.Prelude.Bytes.{Bytes, codes, bytes_eq, bytes_Eq, bytes_eq_iff}
use objectstorage.Prelude.Dict.{Dict, get, put, remove, IsUnique}
use objectstorage.Store.Types.{ok, err, bucket_not_found, bucket_exists}
use objectstorage.Store.Names.{valid_bucket_name, valid_object_name}
use objectstorage.Store.Conditions.{check}
use objectstorage.Store.Bucket.{
  Bucket, make_tmp, Faults, no_faults, info, blob_path, select, scan_object, decref_blob, decrement,
}
use objectstorage.Store.Writer.{
  new_blob_writer, write, install, commit, commit_body, commit_installed, commit_rows, release,
  next_generation, incref_blob,
}
use objectstorage.Store.Writer.Stream.{concat}
use objectstorage.Store.Writer.Copy.{copy, put_object}
use objectstorage.Store.Writer.ReadBack.{in_micros}
use objectstorage.Store.Listing.{order_by}
use objectstorage.Store.Buckets.{
  Entry, directory, ready, Store, content, has_database, create_bucket, get_bucket, delete_bucket,
  list_buckets, bucket, open_bucket, open_database, within, new_bucket, entry_name,
}
use objectstorage.Store.Buckets.Sound.{IsSound}
use objectstorage.Store.Buckets.Keeps.{create_bucket-IsSound}
use objectstorage.Store.Buckets.Lifecycle.{
  get_bucket-create_bucket, create_bucket-stuck, IsRemoved, delete_bucket-IsRemoved,
}
use objectstorage.Store.Buckets.Listed.{infos_of, list_buckets_lem}
use objectstorage.Store.Objects.{put_object_in, open_object_in}
use objectstorage.Store.Objects.Kept.{put_object_in-IsSound}
use objectstorage.Store.Objects.Reads.{open_object_in-put_object_in}
use objectstorage.Store.Tests.Data.{plain_env, red_text, cat_chunks, cat_info, red_text-RoundTrips}

abbrev pub photos : Bytes
photos = codes "photos"

abbrev empty_store : Store
empty_store = record { entries = []; handles = [] }

empty_store-IsSound : IsSound plain_env empty_store
unfolding get
empty_store-IsSound = record { whole = λ name. tt; handles = λ name o. absurd (ground (arith, o)) }

abbrev pub photo_store : Store
photo_store = (create_bucket no_faults 4000 photos empty_store).1

pub photo_store-IsSound : IsSound plain_env photo_store
photo_store-IsSound =
    create_bucket-IsSound plain_env no_faults 4000 photos empty_store empty_store-IsSound

abbrev pub cat_store : Store
cat_store =
    (put_object_in plain_env no_faults 5000 photos (codes "upload-0") (codes "a/cat") cat_chunks
      false red_text photo_store).1

pub cat_store-IsSound : IsSound plain_env cat_store
cat_store-IsSound =
    put_object_in-IsSound plain_env no_faults 5000 photos photo_store photo_store-IsSound
      (codes "upload-0") (codes "a/cat") cat_chunks false red_text

-- The directory `tmp` of a new bucket cannot be made.
abbrev no_tmp : Faults
no_tmp make_tmp = true
no_tmp call = false

created : (create_bucket no_faults 4000 photos empty_store).0 ≡ ok (info (new_bucket photos 4000))
unfolding create_bucket open_bucket open_database bucket within put_object_in delete_bucket
    valid_bucket_name get put remove bytes_eq put_object copy write new_blob_writer commit
    commit_body commit_installed commit_rows install valid_object_name blob_path check release
    next_generation scan_object select decref_blob decrement incref_blob
created = refl

get_bucket-create_bucket_example :
    (get_bucket no_faults 9000 photos photo_store).0 ≡ ok (info (new_bucket photos 4000))
get_bucket-create_bucket_example =
    get_bucket-create_bucket plain_env 4000 photos empty_store empty_store-IsSound no_faults 9000
      (info (new_bucket photos 4000)) created

pub valid_photos : valid_bucket_name photos ≡ true
unfolding valid_bucket_name
valid_photos = refl

create_bucket-stuck_example :
    ((get_bucket no_faults 9000 photos (create_bucket no_tmp 4000 photos empty_store).1).0
      ≡ err bucket_not_found)
    × ((delete_bucket no_faults 9000 photos (create_bucket no_tmp 4000 photos empty_store).1).0
        ≡ err bucket_not_found)
    × ((create_bucket no_faults 9000 photos (create_bucket no_tmp 4000 photos empty_store).1).0
        ≡ err bucket_exists)
create_bucket-stuck_example =
    create_bucket-stuck plain_env 4000 photos empty_store empty_store-IsSound no_tmp 9000
      valid_photos (unfold get in refl) refl refl

deleted : (delete_bucket no_faults 6000 photos photo_store).0 ≡ ok tt
unfolding create_bucket open_bucket open_database bucket within put_object_in delete_bucket
    valid_bucket_name get put remove bytes_eq put_object copy write new_blob_writer commit
    commit_body commit_installed commit_rows install valid_object_name blob_path check release
    next_generation scan_object select decref_blob decrement incref_blob
deleted = refl

delete_bucket-IsRemoved_example :
    IsRemoved plain_env 6000 photos photo_store photo_store-IsSound
      (delete_bucket no_faults 6000 photos photo_store).1
delete_bucket-IsRemoved_example =
    delete_bucket-IsRemoved plain_env 6000 photos photo_store photo_store-IsSound no_faults deleted

abbrev cat_contents : Bucket
cat_contents =
    (put_object plain_env no_faults 5000 (codes "upload-0") (codes "a/cat") cat_chunks false
      red_text (new_bucket photos 4000)).1

cat_here : content photos cat_store ≡ some cat_contents
unfolding create_bucket open_bucket open_database bucket within put_object_in delete_bucket
    valid_bucket_name get put remove bytes_eq put_object copy write new_blob_writer commit
    commit_body commit_installed commit_rows install valid_object_name blob_path check release
    next_generation scan_object select decref_blob decrement incref_blob
cat_here = refl

one_object : 0 < length cat_contents.objects
unfolding create_bucket open_bucket open_database bucket within put_object_in delete_bucket
    valid_bucket_name get put remove bytes_eq put_object copy write new_blob_writer commit
    commit_body commit_installed commit_rows install valid_object_name blob_path check release
    next_generation scan_object select decref_blob decrement incref_blob
one_object = omega arith

photos-IsUnique : IsUnique photo_store.entries
unfolding create_bucket open_bucket open_database bucket within put_object_in delete_bucket
    valid_bucket_name get put remove bytes_eq put_object copy write new_blob_writer commit
    commit_body commit_installed commit_rows install valid_object_name blob_path check release
    next_generation scan_object select decref_blob decrement incref_blob
photos-IsUnique = (refl, tt)

photo_entries : photo_store.entries ≡ (photos, directory (ready (new_bucket photos 4000))) ∷ []
unfolding create_bucket open_bucket open_database bucket within put_object_in delete_bucket
    valid_bucket_name get put remove bytes_eq put_object copy write new_blob_writer commit
    commit_body commit_installed commit_rows install valid_object_name blob_path check release
    next_generation scan_object select decref_blob decrement incref_blob
photo_entries = refl

valid_databases :
    (name : Bytes)
    → has_database (get name photo_store.entries) ≡ true
    → valid_bucket_name name ≡ true
unfolding get
valid_databases name h =
    subst (λ n. valid_bucket_name n ≡ true)
      ((bytes_eq_iff photos name).0 (
        ground (
          arith,
          subst (λ (d : Dict Bytes Entry). has_database (get name d) ≡ true) photo_entries h,
        )))
      valid_photos

list_buckets_example :
    (list_buckets no_faults (λ _. no_faults) 6000 photo_store).0
    ≡ ok (infos_of 6000 (order_by entry_name photo_store.entries))
list_buckets_example =
    list_buckets_lem plain_env 6000 photo_store photo_store-IsSound photos-IsUnique valid_databases

put_in :
    (put_object_in plain_env no_faults 5000 photos
      (codes "upload-0")
      (codes "a/cat")
      cat_chunks
      false
      red_text
      photo_store).0
    ≡ ok cat_info
unfolding create_bucket open_bucket open_database bucket within put_object_in delete_bucket
    valid_bucket_name get put remove bytes_eq put_object copy write new_blob_writer commit
    commit_body commit_installed commit_rows install valid_object_name blob_path check release
    next_generation scan_object select decref_blob decrement incref_blob
put_in = refl

open_object_in-put_object_in_example :
    (open_object_in plain_env no_faults 9000 photos (codes "a/cat") cat_store).0
    ≡ ok (in_micros cat_info, concat cat_chunks)
open_object_in-put_object_in_example =
    open_object_in-put_object_in plain_env no_faults 5000 9000 photos (codes "upload-0")
      (codes "a/cat") cat_chunks false red_text photo_store cat_info red_text-RoundTrips
      (λ x y e. e) photo_store-IsSound put_in
