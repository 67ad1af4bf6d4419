-- ===== src/Store/Buckets.antt =====
-- pkg/store/store.go: the root directory with its buckets, and the open handles. A bucket is on disk
-- whether or not its handle is open; a handle is the name under which it is kept.
pub mod Sound
pub mod Keeps
pub mod Lifecycle
pub mod Within
pub mod Listed
use objectstorage.Prelude.{
  ℕ, ◌/◌, Option, none, some, Bool, true, false, not, ◌&&◌, ◌||◌, if◌then◌else◌, ltb, List, [], ◌∷◌,
  length,
}
use objectstorage.Prelude.Bytes.{Bytes, bytes_Eq}
use objectstorage.Prelude.Dict.{Dict, get, put, remove}
use objectstorage.Prelude.Int.{pos}
use objectstorage.Store.Types.{
  Error, bucket_not_found, bucket_exists, bucket_not_empty, invalid_name, call_failed, Result, ok,
  err, BucketInfo,
}
use objectstorage.Store.Names.{valid_bucket_name}
use objectstorage.Store.Bucket.{
  Bucket, Call, make_root, read_root, make_dir, make_objects, make_tmp, stat_db, remove_all,
  open_db, exec_schema, insert_info, select_info, count_objects, close_db, Faults, info,
}
use objectstorage.Store.Listing.{order_by}

-- `data.sqlite`: not there, there with its tables but no row of `bucket_info`, or a bucket's.
pub data Database : Type 0 where
  absent bare : Database
  ready : Bucket → Database

-- What the root directory holds.
pub data Entry : Type 0 where
  regular : Entry
  directory : Database → Entry

pub record Store : Type 0 where
  pub entries : Dict Bytes Entry
  pub handles : Dict Bytes (Unit {0})

abbrev pub content_of : Option Entry → Option Bucket
content_of none = none
content_of (some regular) = none
content_of (some (directory absent)) = none
content_of (some (directory bare)) = none
content_of (some (directory (ready b))) = some b

abbrev pub content : Bytes → Store → Option Bucket
content name st = content_of (get name st.entries)

abbrev pub is_directory : Entry → Bool
is_directory regular = false
is_directory (directory d) = true

abbrev pub has_database : Option Entry → Bool
has_database none = false
has_database (some regular) = false
has_database (some (directory absent)) = false
has_database (some (directory bare)) = true
has_database (some (directory (ready b))) = true

abbrev pub is_held : Option (Unit {0}) → Bool
is_held none = false
is_held (some h) = true

abbrev pub is_open : Bytes → Store → Bool
is_open name st = is_held (get name st.handles)

-- `Open`: what is on disk stays, and no handle is open.
unfoldable pub open_store : Faults → Dict Bytes Entry → Result Store
open_store fails entries =
    if fails make_root then err call_failed else ok (record { entries = entries; handles = [] })

abbrev any_fails : (Bytes → Bool) → Dict Bytes (Unit {0}) → Bool
any_fails failed [] = false
any_fails failed ((name, h) ∷ handles) = failed name || any_fails failed handles

-- `Close`: every handle goes, whichever of their databases fail to close.
unfoldable pub close_store : (Bytes → Faults) → Store → Result (Unit {0}) × Store
close_store fails st = (
  (if any_fails (λ name. fails name close_db) st.handles then err call_failed else ok tt),
  record st { handles = [] },
)

-- `CREATE TABLE IF NOT EXISTS`
abbrev pub with_schema : Database → Database
with_schema absent = bare
with_schema bare = bare
with_schema (ready b) = ready b

abbrev pub new_bucket : Bytes → ℕ → Bucket
new_bucket name now = record {
  name = name;
  bucket_info = record { created = now / 1000; metageneration = pos 1 };
  tables = record { objects = []; blobs = [] };
  files = [];
}

-- `INSERT OR IGNORE INTO bucket_info`
abbrev pub initialized : Bytes → ℕ → Database → Bucket
initialized name now absent = new_bucket name now
initialized name now bare = new_bucket name now
initialized name now (ready b) = b

-- `openBucket` of pkg/store/bucket.go, and the handle that is kept.
unfoldable pub open_database : Faults → ℕ → Bytes → Store → Option Entry → Result Bucket × Store
open_database fails now name st none = (err call_failed, st)
open_database fails now name st (some regular) = (err call_failed, st)
open_database fails now name st (some (directory d)) =
    if fails open_db || fails exec_schema
    then (err call_failed, st)
    else if fails insert_info
    then (err call_failed, record st { entries = put name (directory (with_schema d)) st.entries })
    else (
      ok (initialized name now d),
      record {
        entries = put name (directory (ready (initialized name now d))) st.entries;
        handles = put name tt st.handles;
      },
    )

-- What a handle gives: the database behind it.
abbrev pub held : Option Bucket → Result Bucket
held none = err call_failed
held (some b) = ok b

unfoldable pub open_bucket : Faults → ℕ → Bytes → Store → Result Bucket × Store
open_bucket fails now name st =
    if is_open name st
    then (held (content name st), st)
    else open_database fails now name st (get name st.entries)

unfoldable pub bucket : Faults → ℕ → Bytes → Store → Result Bucket × Store
bucket fails now name st =
    if not (valid_bucket_name name)
    then (err bucket_not_found, st)
    else if is_open name st
    then (held (content name st), st)
    else if fails stat_db || not (has_database (get name st.entries))
    then (err bucket_not_found, st)
    else open_bucket fails now name st

-- `b.info()` of the bucket that has been found
abbrev pub describe : Faults → Result Bucket × Store → Result BucketInfo × Store
describe fails (err e, st) = (err e, st)
describe fails (ok b, st) = ((if fails select_info then err call_failed else ok (info b)), st)

-- What follows the check of the name: `os.Mkdir` of the directory refuses a name that is taken.
abbrev pub create_dir : Faults → ℕ → Bytes → Store → Option Entry → Result BucketInfo × Store
create_dir fails now name st (some entry) = (err bucket_exists, st)
create_dir fails now name st none =
    let st' = record st { entries = put name (directory absent) st.entries } in
    if fails make_objects || fails make_tmp
    then (err call_failed, st')
    else describe fails (open_bucket fails now name st')

unfoldable pub create_bucket : Faults → ℕ → Bytes → Store → Result BucketInfo × Store
create_bucket fails now name st =
    if not (valid_bucket_name name)
    then (err invalid_name, st)
    else if fails make_dir
    then (err call_failed, st)
    else create_dir fails now name st (get name st.entries)

unfoldable pub get_bucket : Faults → ℕ → Bytes → Store → Result BucketInfo × Store
get_bucket fails now name st = describe fails (bucket fails now name st)

-- The directory goes once its bucket is found to have no objects; its handle goes before.
abbrev pub remove_bucket : Faults → Bytes → Store → Result (Unit {0}) × Store
remove_bucket fails name st =
    let st' = record st { handles = remove name st.handles } in
    if fails close_db
    then (err call_failed, st')
    else if fails remove_all
    then (err call_failed, st')
    else (ok tt, record st' { entries = remove name st'.entries })

abbrev pub delete_found : Faults → Bytes → Result Bucket × Store → Result (Unit {0}) × Store
delete_found fails name (err e, st) = (err e, st)
delete_found fails name (ok b, st) =
    if fails count_objects
    then (err call_failed, st)
    else if ltb 0 (length b.objects)
    then (err bucket_not_empty, st)
    else remove_bucket fails name st

unfoldable pub delete_bucket : Faults → ℕ → Bytes → Store → Result (Unit {0}) × Store
delete_bucket fails now name st = delete_found fails name (bucket fails now name st)

-- The loop of `ListBuckets` goes on with what is behind a bucket that can be described.
abbrev pub listed :
    Result BucketInfo → Result (List BucketInfo) × Store → Store → Result (List BucketInfo) × Store
listed (err e) rest st = (err e, st)
listed (ok found) (err e, st') st = (err e, st')
listed (ok found) (ok infos, st') st = (ok (found ∷ infos), st')

-- An entry that is no directory, or has no database, is passed over.
unfoldable pub list_entries :
    (Bytes → Faults) → ℕ → List (Bytes × Entry) → Store → Result (List BucketInfo) × Store
list_entries fails now [] st = (ok [], st)
list_entries fails now ((name, entry) ∷ entries) st =
    let (result, st') = get_bucket (fails name) now name st in
    let passed = list_entries fails now entries st in
    let rest = list_entries fails now entries st' in
    if not (is_directory entry) || fails name stat_db || not (has_database (get name st.entries))
    then passed
    else listed result rest st'

abbrev pub entry_name : Bytes × Entry → Bytes
entry_name (name, entry) = name

abbrev pub by_name : Result (List BucketInfo) × Store → Result (List BucketInfo) × Store
by_name (err e, st) = (err e, st)
by_name (ok infos, st) = (ok (order_by (λ i. i.name) infos), st)

-- `os.ReadDir` gives the entries in the order of their names.
unfoldable pub list_buckets :
    Faults → (Bytes → Faults) → ℕ → Store → Result (List BucketInfo) × Store
list_buckets root_fails fails now st =
    if root_fails read_root
    then (err call_failed, st)
    else by_name (list_entries fails now (order_by entry_name st.entries) st)

-- An operation on a bucket: `s.bucket(name)`, and then the operation on what it has found.
abbrev pub within_found {ℓ} :
    {A : Type ℓ} → Bytes → (Bucket → Result A × Bucket) → Result Bucket × Store → Result A × Store
within_found name op (err e, st) = (err e, st)
within_found name op (ok b, st) =
    let (result, b') = op b in
    (result, record st { entries = put name (directory (ready b')) st.entries })

unfoldable pub within {ℓ} :
    {A : Type ℓ} → Faults → ℕ → Bytes → (Bucket → Result A × Bucket) → Store → Result A × Store
within fails now name op st = within_found name op (bucket fails now name st)
