-- ===== src/Store/Objects/Kept.antt =====
-- The operations on objects keep a store sound.
use objectstorage.Prelude.{ℕ, Bool, List, [], ◌≡◌, refl, inl, inr, Bool-cases}
use objectstorage.Prelude.Bytes.{Bytes}
use objectstorage.Store.Types.{Result, ok, err, Env, ObjectInfo, Conditions, PutOptions}
use objectstorage.Store.Bucket.{
  Tables, Bucket, create_temp, begin, Faults, delete_tx, delete_end, delete_object,
}
use objectstorage.Store.Bucket.Delete.{delete_object-IsConsistent}
use objectstorage.Store.Writer.Put.{put_object-IsConsistent, temp-IsConsistent}
use objectstorage.Store.Writer.Named.{put_object_name}
use objectstorage.Store.Buckets.{Store}
use objectstorage.Store.Buckets.Sound.{IsSound}
use objectstorage.Store.Buckets.Keeps.{within-IsSound}
use objectstorage.Store.Objects.{create_part, delete_object_in, temp_file, put_object_in}

module _ (env : Env) (fails : Faults) where
  delete_end_name :
      (b : Bucket) (r : Result (ObjectInfo × Bool × Tables))
      → (delete_end fails b r).1.name ≡ b.name
  delete_end_name b (err e) = refl
  delete_end_name b (ok (found, orphan, t)) = refl

  delete_object_name :
      (name : Bytes) (conds : Conditions) (b : Bucket)
      → (delete_object env fails name conds b).1.name ≡ b.name
  unfolding delete_object
  delete_object_name name conds b = elim (Bool-cases (fails begin)) [
    | inl p ↦ rw p refl
    | inr p ↦ rw p (delete_end_name b (delete_tx env fails b.name name conds b.tables))
  ]

  module _ (now : ℕ) (bucket_name : Bytes) (st : Store) (h : IsSound env st) where
    -- Whatever calls fail, the deletion of an object keeps a sound store sound.
    pub delete_object_in-IsSound :
        (name : Bytes) (conds : Conditions)
        → IsSound env (delete_object_in env fails now bucket_name name conds st).1
    unfolding delete_object_in
    delete_object_in-IsSound name conds =
        within-IsSound env fails now bucket_name _
          (λ b k.
            (delete_object-IsConsistent env fails name conds b k, delete_object_name name conds b))
          st h

    -- Whatever calls fail, and wherever the reader breaks off, a put keeps a sound store sound.
    pub put_object_in-IsSound :
        (temp_name name : Bytes) (chunks : List (Bytes × ℕ)) (broken : Bool) (opts : PutOptions)
        → IsSound env
            (put_object_in env fails now bucket_name temp_name name chunks broken opts st).1
    unfolding put_object_in
    put_object_in-IsSound temp_name name chunks broken opts =
        within-IsSound env fails now bucket_name _
          (λ b k. (
            put_object-IsConsistent env fails now temp_name name chunks broken opts b k,
            put_object_name env fails now name opts temp_name chunks broken b,
          ))
          st h

    -- Whatever calls fail, a temporary file that is made in a bucket keeps a sound store sound.
    pub temp_file-IsSound :
        (temp_name : Bytes) → IsSound env (temp_file fails now bucket_name temp_name st).1
    unfolding temp_file create_part
    temp_file-IsSound temp_name =
        within-IsSound env fails now bucket_name _
          (λ b k. elim (Bool-cases (fails create_temp)) [
            | inl p ↦ rw p (k, refl)
            | inr p ↦ rw p (temp-IsConsistent env temp_name [] b k, refl)
          ])
          st h
