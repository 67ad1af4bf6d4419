-- ===== src/Store/Objects.antt =====
-- The methods of `Store` on objects, in pkg/store/bucket.go and pkg/store/blobwriter.go: each finds
-- its bucket first.
pub mod Kept
pub mod Reads
pub mod Lists
use objectstorage.Prelude.{ℕ, Option, none, some, Bool, if◌then◌else◌, List, []}
use objectstorage.Prelude.Bytes.{Bytes}
use objectstorage.Prelude.Dict.{put}
use objectstorage.Store.Types.{
  call_failed, Result, ok, err, Env, ObjectInfo, Conditions, PutOptions, ListRequest, ListResult,
}
use objectstorage.Store.Bucket.{
  FilePath, temp, path_Eq, Bucket, create_temp, Faults, get_object, open_object, delete_object,
}
use objectstorage.Store.Writer.{Writer, new_blob_writer}
use objectstorage.Store.Writer.Copy.{put_object}
use objectstorage.Store.Listing.{list_objects}
use objectstorage.Store.Buckets.{Store, bucket, within}

unfoldable pub get_object_in : Env → Faults → ℕ → Bytes → Bytes → Store → Result ObjectInfo × Store
get_object_in env fails now bucket_name name st =
    within fails now bucket_name (λ b. (get_object env fails name b, b)) st

unfoldable pub open_object_in :
    Env → Faults → ℕ → Bytes → Bytes → Store → Result (ObjectInfo × Bytes) × Store
open_object_in env fails now bucket_name name st =
    within fails now bucket_name (λ b. (open_object env fails name b, b)) st

unfoldable pub delete_object_in :
    Env → Faults → ℕ → Bytes → Bytes → Conditions → Store → Result (Unit {0}) × Store
delete_object_in env fails now bucket_name name conds st =
    within fails now bucket_name (delete_object env fails name conds) st

-- `none` as for `list_objects`
abbrev pub listed_in :
    Env → Faults → ListRequest → Result Bucket × Store → Option (Result ListResult) × Store
listed_in env fails req (err e, st) = (some (err e), st)
listed_in env fails req (ok b, st) = (list_objects env fails req b, st)

unfoldable pub list_objects_in :
    Env → Faults → ℕ → Bytes → ListRequest → Store → Option (Result ListResult) × Store
list_objects_in env fails now bucket_name req st =
    listed_in env fails req (bucket fails now bucket_name st)

unfoldable pub new_blob_writer_in : Faults → ℕ → Bytes → Bytes → Store → Result Writer × Store
new_blob_writer_in fails now bucket_name temp_name st =
    within fails now bucket_name (new_blob_writer fails temp_name) st

-- The caller owns the file.
unfoldable pub create_part : Faults → Bytes → Bucket → Result FilePath × Bucket
create_part fails temp_name b =
    if fails create_temp
    then (err call_failed, b)
    else (ok (temp temp_name), record b { files = put (temp temp_name) [] b.files })

unfoldable pub temp_file : Faults → ℕ → Bytes → Bytes → Store → Result FilePath × Store
temp_file fails now bucket_name temp_name st =
    within fails now bucket_name (create_part fails temp_name) st

unfoldable pub put_object_in :
    Env
    → Faults
    → ℕ
    → Bytes
    → Bytes
    → Bytes
    → List (Bytes × ℕ)
    → Bool
    → PutOptions
    → Store
    → Result ObjectInfo × Store
put_object_in env fails now bucket_name temp_name name chunks broken opts st =
    within fails now bucket_name (put_object env fails now temp_name name chunks broken opts) st
