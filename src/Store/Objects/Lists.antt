-- ===== src/Store/Objects/Lists.antt =====
-- The listing of a bucket of a store returns, and keeps the store sound.
use objectstorage.Prelude.{ℕ, none, ◌≢◌, arith}
use objectstorage.Prelude.Bytes.{Bytes}
use objectstorage.Store.Types.{Env, ListRequest, Result, ok, err}
use objectstorage.Store.Bucket.{Bucket, Faults}
use objectstorage.Store.Listing.Terminates.{list_objects-ne-none}
use objectstorage.Store.Buckets.{Store, bucket}
use objectstorage.Store.Buckets.Sound.{IsSound, bucket-Found, Found-IsSound}
use objectstorage.Store.Objects.{listed_in, list_objects_in}

module _ (env : Env) (fails : Faults) (now : ℕ) (bucket_name : Bytes) (req : ListRequest)
    (st : Store) where
  listed_in-ne-none : (r : Result Bucket × Store) → (listed_in env fails req r).0 ≢ none
  listed_in-ne-none (err e, st') = ground arith
  listed_in-ne-none (ok b, st') = list_objects-ne-none env fails req b

  -- For every request, and whatever calls fail, a listing of a bucket of a store returns.
  pub list_objects_in-ne-none : (list_objects_in env fails now bucket_name req st).0 ≢ none
  unfolding list_objects_in
  list_objects_in-ne-none = listed_in-ne-none (bucket fails now bucket_name st)

  listed_in-IsSound :
      (r : Result Bucket × Store) → IsSound env r.1 → IsSound env (listed_in env fails req r).1
  listed_in-IsSound (err e, st') h = h
  listed_in-IsSound (ok b, st') h = h

  pub list_objects_in-IsSound :
      IsSound env st → IsSound env (list_objects_in env fails now bucket_name req st).1
  unfolding list_objects_in
  list_objects_in-IsSound h =
      listed_in-IsSound (bucket fails now bucket_name st)
        (Found-IsSound env fails now bucket_name _ (bucket-Found env fails now bucket_name st h))
