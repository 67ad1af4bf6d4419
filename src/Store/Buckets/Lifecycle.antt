-- ===== src/Store/Buckets/Lifecycle.antt =====
-- Buckets from their creation to their deletion: what is found, when, and what stays as it was.
use objectstorage.Prelude.{
  ℕ, ◌<◌, Option, none, some, true, false, ◌||◌, if◌then◌else◌, length, ◌≡◌, ◌≢◌, refl, arith,
}
use objectstorage.Prelude.Bytes.{Bytes, bytes_eq_iff, bytes_Eq}
use objectstorage.Prelude.Dict.{get, put, get-put, get-remove}
use objectstorage.Store.Types.{
  Error, Env, bucket_not_found, bucket_exists, bucket_not_empty, invalid_name, Result, ok, err,
  BucketInfo,
}
use objectstorage.Store.Names.{valid_bucket_name}
use objectstorage.Store.Bucket.{Bucket, Faults, no_faults, info, make_dir, make_objects, make_tmp}
use objectstorage.Store.Buckets.{
  absent, bare, ready, Database, Entry, regular, directory, Store, content, is_open, initialized,
  new_bucket, open_database, open_bucket, bucket, create_bucket, get_bucket, delete_bucket,
}
use objectstorage.Store.Buckets.Sound.{IsSound}

-- What the search for a bucket comes to where no call fails, by what the root directory holds.
abbrev pub bucket_outcome : ℕ → Bytes → Option Entry → Result Bucket
bucket_outcome now name none = err bucket_not_found
bucket_outcome now name (some regular) = err bucket_not_found
bucket_outcome now name (some (directory absent)) = err bucket_not_found
bucket_outcome now name (some (directory bare)) = ok (initialized name now bare)
bucket_outcome now name (some (directory (ready b))) = ok b

abbrev pub only_valid {ℓ} : {A : Type ℓ} → Bytes → Error → Result A → Result A
only_valid name e r = if valid_bucket_name name then r else err e

module _ (env : Env) (now : ℕ) (name : Bytes) (st : Store) (h : IsSound env st) where
  -- In a sound store, where no call fails, a search finds the bucket that is on disk under a valid
  -- name, whether or not its handle is open, and nothing else.
  pub bucket_outcome_lem :
      (bucket no_faults now name st).0
      ≡ only_valid name bucket_not_found (bucket_outcome now name (get name st.entries))
  unfolding bucket open_bucket open_database
  bucket_outcome_lem = split (get name st.entries) refl
    where
      split :
          (o : Option Entry)
          → get name st.entries ≡ o
          → (bucket no_faults now name st).0
            ≡ only_valid name bucket_not_found (bucket_outcome now name o)
      split none e = ground (arith, e, h.handles name)
      split (some regular) e = ground (arith, e, h.handles name)
      split (some (directory absent)) e = ground (arith, e, h.handles name)
      split (some (directory bare)) e = ground (arith, e, h.handles name)
      split (some (directory (ready b))) e = ground (arith, e, h.handles name)

-- What `CreateBucket` comes to, by what stands under the name.
abbrev pub create_outcome : ℕ → Bytes → Option Entry → Result BucketInfo
create_outcome now name (some entry) = err bucket_exists
create_outcome now name none = ok (info (new_bucket name now))

module _ (env : Env) (now : ℕ) (name : Bytes) (st : Store) (h : IsSound env st) where
  -- In a sound store, where no call fails, an invalid name and a name that is taken are the only
  -- errors of a create, in that order.
  pub create_bucket_outcome :
      (create_bucket no_faults now name st).0
      ≡ only_valid name invalid_name (create_outcome now name (get name st.entries))
  unfolding create_bucket open_bucket open_database
  create_bucket_outcome = split (get name st.entries) refl
    where
      split :
          (o : Option Entry)
          → get name st.entries ≡ o
          → (create_bucket no_faults now name st).0
            ≡ only_valid name invalid_name (create_outcome now name o)
      split none e = ground (
        arith,
        e,
        h.handles name,
        get-put name name (directory absent) st.entries,
        bytes_eq_iff name name,
      )
      split (some entry) e = ground (arith, e)

  -- In a sound store, and whatever calls failed on the way, a bucket that a create has described is
  -- described alike by every later search, where no call of the search fails.
  pub get_bucket-create_bucket :
      (fails : Faults) (later : ℕ) (i : BucketInfo)
      → (create_bucket fails now name st).0 ≡ ok i
      → (get_bucket no_faults later name (create_bucket fails now name st).1).0 ≡ ok i
  unfolding create_bucket open_bucket open_database get_bucket bucket
  get_bucket-create_bucket fails later i = split (get name st.entries) refl
    where
      split :
          (o : Option Entry)
          → get name st.entries ≡ o
          → (create_bucket fails now name st).0 ≡ ok i
          → (get_bucket no_faults later name (create_bucket fails now name st).1).0 ≡ ok i
      split (some entry) e q = absurd (ground (arith, e))
      split none e q = ground (
        arith,
        e,
        q,
        h.handles name,
        get-put name name (directory absent) st.entries,
        get-put name name (directory (ready (new_bucket name now)))
            (put name (directory absent) st.entries),
        get-put name name tt st.handles,
        bytes_eq_iff name name,
      )

  -- In a sound store, a create of a valid, free name that fails to make the directories of the
  -- bucket leaves the name unusable: no bucket of that name is found, none can be deleted, and
  -- none can be created, though no call fails any more.
  pub create_bucket-stuck :
      (fails : Faults) (later : ℕ)
      → valid_bucket_name name ≡ true
      → get name st.entries ≡ none
      → fails make_dir ≡ false
      → (fails make_objects || fails make_tmp) ≡ true
      → ((get_bucket no_faults later name (create_bucket fails now name st).1).0
          ≡ err bucket_not_found)
        × ((delete_bucket no_faults later name (create_bucket fails now name st).1).0
            ≡ err bucket_not_found)
        × ((create_bucket no_faults later name (create_bucket fails now name st).1).0
            ≡ err bucket_exists)
  unfolding create_bucket get_bucket delete_bucket bucket
  create_bucket-stuck fails later v e made broken = ground (
    arith,
    e,
    h.handles name,
    get-put name name (directory absent) st.entries,
    bytes_eq_iff name name,
  )

  -- What a deletion that succeeds has done.
  pub record IsRemoved (st' : Store) : Type 0 where
    pub empty : (b : Bucket) → content name st ≡ some b → length b.objects ≡ 0
    pub gone : (get name st'.entries ≡ none) × (is_open name st' ≡ false)
    pub others : (other : Bytes) → name ≢ other → get other st'.entries ≡ get other st.entries

  -- In a sound store, a deletion that succeeds has found no objects in the bucket; the bucket and
  -- its handle are gone, and every other entry stands.
  pub delete_bucket-IsRemoved :
      (fails : Faults)
      → (delete_bucket fails now name st).0 ≡ ok tt
      → IsRemoved (delete_bucket fails now name st).1
  unfolding delete_bucket bucket open_bucket open_database
  delete_bucket-IsRemoved fails q = split (get name st.entries) refl
    where
      found :
          (d : Database)
          → get name st.entries ≡ some (directory d)
          → ((b : Bucket) → content name st ≡ some b → length b.objects ≡ 0)
          → IsRemoved (delete_bucket fails now name st).1
      found d e empty = record {
        empty = empty;
        gone = ground (
          arith,
          e,
          q,
          get-remove name name (put name (directory (ready (initialized name now d))) st.entries),
          get-remove name name st.entries,
          get-remove name name (put name tt st.handles),
          get-remove name name st.handles,
          bytes_eq_iff name name,
        );
        others = λ other n. ground (
          arith,
          e,
          q,
          get-remove name other (put name (directory (ready (initialized name now d))) st.entries),
          get-put name other (directory (ready (initialized name now d))) st.entries,
          get-remove name other st.entries,
          bytes_eq_iff name other,
        );
      }

      split :
          (o : Option Entry)
          → get name st.entries ≡ o
          → IsRemoved (delete_bucket fails now name st).1
      split none e = absurd (ground (arith, e, q, h.handles name))
      split (some regular) e = absurd (ground (arith, e, q, h.handles name))
      split (some (directory absent)) e = found absent e (λ b c. absurd (ground (arith, e, c)))
      split (some (directory bare)) e = found bare e (λ b c. absurd (ground (arith, e, c)))
      split (some (directory (ready x))) e = found (ready x) e (λ b c. ground (arith, e, c, q))

  -- Where no call fails, a bucket of a sound store that has a valid name and objects is not deleted:
  -- it is there as it was.
  pub delete_bucket-not_empty :
      (b : Bucket)
      → content name st ≡ some b
      → valid_bucket_name name ≡ true
      → 0 < length b.objects
      → ((delete_bucket no_faults now name st).0 ≡ err bucket_not_empty)
        × (content name (delete_bucket no_faults now name st).1 ≡ some b)
  unfolding delete_bucket bucket open_bucket open_database
  delete_bucket-not_empty b c v full = split (get name st.entries) refl
    where
      split :
          (o : Option Entry)
          → get name st.entries ≡ o
          → ((delete_bucket no_faults now name st).0 ≡ err bucket_not_empty)
            × (content name (delete_bucket no_faults now name st).1 ≡ some b)
      split none e = absurd (ground (arith, e, c))
      split (some regular) e = absurd (ground (arith, e, c))
      split (some (directory absent)) e = absurd (ground (arith, e, c))
      split (some (directory bare)) e = absurd (ground (arith, e, c))
      split (some (directory (ready x))) e = ground (
        arith,
        e,
        c,
        v,
        full,
        get-put name name (directory (ready x)) st.entries,
        bytes_eq_iff name name,
      )
