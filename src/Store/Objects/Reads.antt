-- ===== src/Store/Objects/Reads.antt =====
-- An object that is put into a bucket of a store is read back from there.
use objectstorage.Prelude.{ℕ, Bool, true, List, ◌≡◌, arith, some, subst, ◌∙◌}
use objectstorage.Prelude.Bytes.{Bytes, bytes_eq_iff, bytes_Eq}
use objectstorage.Prelude.Dict.{get-put}
use objectstorage.Store.Types.{Result, ok, err, Env, ObjectInfo, PutOptions}
use objectstorage.Store.Bucket.{Bucket, Faults, no_faults, open_object}
use objectstorage.Store.Bucket.Invariant.{IsConsistent}
use objectstorage.Store.Names.{valid_bucket_name}
use objectstorage.Store.Writer.Stream.{concat}
use objectstorage.Store.Writer.ReadBack.{RoundTrips, in_micros}
use objectstorage.Store.Writer.Copy.{put_object}
use objectstorage.Store.Writer.Put.{open_object-put_object}
use objectstorage.Store.Buckets.{Store, ready, directory, content, bucket, within, within_found}
use objectstorage.Store.Buckets.Sound.{IsSound, IsWhole, Found, bucket-Found}
use objectstorage.Store.Buckets.Within.{within-content}
use objectstorage.Store.Objects.{open_object_in, put_object_in}
use objectstorage.Store.Objects.Kept.{put_object_in-IsSound}

module _ (env : Env) (name : Bytes) {A : Type 0} (op : Bucket → Result A × Bucket) (a : A) where
  -- What an operation that succeeds has found, and what the bucket is afterwards.
  pub record Ran (bucket_name : Bytes) (st' : Store) : Type 0 where
    pub before : Bucket
    pub whole : IsConsistent env before
    pub valid : valid_bucket_name bucket_name ≡ true
    pub returned : (op before).0 ≡ ok a
    pub after : content bucket_name st' ≡ some (op before).1

  pub within_found-Ran :
      (bucket_name : Bytes) (r : Result Bucket × Store)
      → Found env bucket_name r
      → (within_found bucket_name op r).0 ≡ ok a
      → Ran bucket_name (within_found bucket_name op r).1
  within_found-Ran bucket_name (err e, st) f q = cc
  within_found-Ran bucket_name (ok b, st) (h, (at, v)) q = record {
    before = b;
    whole = (subst (λ o. IsWhole env bucket_name o) at (h.whole bucket_name)).0;
    valid = v;
    returned = q;
    after = ground (
      arith,
      get-put bucket_name bucket_name (directory (ready (op b).1)) st.entries,
      bytes_eq_iff bucket_name bucket_name,
    );
  }

-- Whatever calls fail in a put that succeeds in a sound store, where JSON gives back the metadata and
-- no two contents have the same digest: what is opened afterwards, where no call fails, is the object
-- that was returned, times in microseconds, with the chunks of the reader, one after the other.
pub open_object_in-put_object_in :
    (env : Env) (fails : Faults) (now later : ℕ) (bucket_name temp_name name : Bytes)
    (chunks : List (Bytes × ℕ)) (broken : Bool) (opts : PutOptions) (st : Store)
    (found : ObjectInfo)
    → RoundTrips env opts
    → ((x y : Bytes) → env.sha256_hex x ≡ env.sha256_hex y → x ≡ y)
    → IsSound env st
    → (put_object_in env fails now bucket_name temp_name name chunks broken opts st).0 ≡ ok found
    → (open_object_in env no_faults later bucket_name name
        (put_object_in env fails now bucket_name temp_name name chunks broken opts st).1).0
      ≡ ok (in_micros found, concat chunks)
unfolding open_object_in put_object_in within
open_object_in-put_object_in env fails now later bucket_name temp_name name chunks broken opts st
      found json injective h q =
    let op : Bucket → Result ObjectInfo × Bucket =
      put_object env fails now temp_name name chunks broken opts in
    let sound =
      put_object_in-IsSound env fails now bucket_name st h temp_name name chunks broken opts in
    let ran =
      within_found-Ran env name op found bucket_name (bucket fails now bucket_name st)
        (bucket-Found env fails now bucket_name st h) q in
    let (returned, _) =
      within-content env later bucket_name _ (op ran.before).1 sound ran.after ran.valid
        (λ b. (open_object env no_faults name b, b)) in
    returned
    ∙ open_object-put_object env fails now temp_name name chunks broken opts found json injective
        ran.before ran.whole ran.returned
