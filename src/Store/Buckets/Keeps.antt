-- ===== src/Store/Buckets/Keeps.antt =====
-- Every operation of pkg/store/store.go keeps a store sound.
use objectstorage.Prelude.{
  ℕ, Option, none, some, true, not, ◌||◌, ltb, List, [], ◌∷◌, length, ◌≡◌, refl, arith, inl, inr,
  Bool-cases, subst,
}
use objectstorage.Prelude.Bytes.{Bytes, bytes_eq_iff, bytes_Eq}
use objectstorage.Prelude.Dict.{get, get-remove}
use objectstorage.Store.Types.{Env, Result, ok, err, BucketInfo}
use objectstorage.Store.Names.{valid_bucket_name}
use objectstorage.Store.Bucket.{
  Bucket, Faults, stat_db, make_dir, make_objects, make_tmp, count_objects, close_db, remove_all,
  read_root,
}
use objectstorage.Store.Bucket.Invariant.{IsConsistent}
use objectstorage.Store.Buckets.{
  absent, ready, Entry, directory, Store, is_directory, has_database, describe, create_dir,
  create_bucket, get_bucket, remove_bucket, delete_found, delete_bucket, listed, list_entries,
  list_buckets, by_name, within_found, within,
}
use objectstorage.Store.Buckets.Sound.{
  IsWhole, IsSound, put-IsSound, close-IsSound, remove-IsSound, Found, open_bucket-Found,
  bucket-Found, Found-IsSound,
}

module _ (env : Env) where
  describe-IsSound :
      (fails : Faults) (r : Result Bucket × Store)
      → IsSound env r.1
      → IsSound env (describe fails r).1
  describe-IsSound fails (err e, st) h = h
  describe-IsSound fails (ok b, st) h = h

  module _ (fails : Faults) (now : ℕ) (name : Bytes) where
    create_dir-IsSound :
        (st : Store) (o : Option Entry)
        → IsSound env st
        → valid_bucket_name name ≡ true
        → get name st.entries ≡ o
        → IsSound env (create_dir fails now name st o).1
    create_dir-IsSound st (some entry) h v e = h
    create_dir-IsSound st none h v e =
        let made =
          put-IsSound env name st h (directory absent) st.handles tt (λ other n o. o)
            (λ o. absurd (ground (arith, h.handles name, e))) in
        elim (Bool-cases (fails make_objects || fails make_tmp)) [
          | inl p ↦ rw p made
          | inr p ↦ rw p (
              describe-IsSound fails _ (
                Found-IsSound env fails now name _ (open_bucket-Found env fails now name _ made v)))
        ]

    -- Whatever calls fail, a create keeps a sound store sound: its buckets are consistent and carry
    -- their names, and handles are open only for buckets that are there.
    pub create_bucket-IsSound :
        (st : Store) → IsSound env st → IsSound env (create_bucket fails now name st).1
    unfolding create_bucket
    create_bucket-IsSound st h = elim (Bool-cases (valid_bucket_name name)) [
      | inr v ↦ rw v h
      | inl v ↦ elim (Bool-cases (fails make_dir)) [
        | inl p ↦ rw (v, p) h
        | inr p ↦ rw (v, p) (create_dir-IsSound st (get name st.entries) h v refl)
      ]
    ]

    pub get_bucket-IsSound :
        (st : Store) → IsSound env st → IsSound env (get_bucket fails now name st).1
    unfolding get_bucket
    get_bucket-IsSound st h =
        describe-IsSound fails _
          (Found-IsSound env fails now name _ (bucket-Found env fails now name st h))

    remove_bucket-IsSound :
        (st : Store) → IsSound env st → IsSound env (remove_bucket fails name st).1
    remove_bucket-IsSound st h =
        let closed = close-IsSound env name st h in
        elim (Bool-cases (fails close_db)) [
          | inl p ↦ rw p closed
          | inr p ↦ elim (Bool-cases (fails remove_all)) [
            | inl q ↦ rw (p, q) closed
            | inr q ↦
                rw (p, q)
                  (remove-IsSound env name _ closed
                    (ground (arith, get-remove name name st.handles, bytes_eq_iff name name)))
          ]
        ]

    delete_found-IsSound :
        (r : Result Bucket × Store) → IsSound env r.1 → IsSound env (delete_found fails name r).1
    delete_found-IsSound (err e, st) h = h
    delete_found-IsSound (ok b, st) h = elim (Bool-cases (fails count_objects)) [
      | inl p ↦ rw p h
      | inr p ↦ elim (Bool-cases (ltb 0 (length b.objects))) [
        | inl q ↦ rw (p, q) h
        | inr q ↦ rw (p, q) (remove_bucket-IsSound st h)
      ]
    ]

    -- Whatever calls fail, the deletion of a bucket keeps a sound store sound.
    pub delete_bucket-IsSound :
        (st : Store) → IsSound env st → IsSound env (delete_bucket fails now name st).1
    unfolding delete_bucket
    delete_bucket-IsSound st h =
        delete_found-IsSound _
          (Found-IsSound env fails now name _ (bucket-Found env fails now name st h))

    module _ {ℓ} {A : Type ℓ} (op : Bucket → Result A × Bucket)
        (keeps : (b : Bucket)
          → IsConsistent env b
          → IsConsistent env (op b).1 × ((op b).1.name ≡ b.name)) where
      within_found-IsSound :
          (r : Result Bucket × Store) → Found env name r → IsSound env (within_found name op r).1
      within_found-IsSound (err e, st) h = h
      within_found-IsSound (ok b, st) (h, (at, v)) =
          let (whole, named) = subst (λ o. IsWhole env name o) at (h.whole name) in
          let (whole', named') = keeps b whole in
          put-IsSound env name st h (directory (ready (op b).1)) st.handles
            (whole', cc (named, named')) (λ other n o. o) (λ o. (v, refl))

      -- Whatever calls fail, an operation that keeps buckets consistent, and their names, keeps a
      -- sound store sound.
      pub within-IsSound :
          (st : Store) → IsSound env st → IsSound env (within fails now name op st).1
      unfolding within
      within-IsSound st h = within_found-IsSound _ (bucket-Found env fails now name st h)

  listed-IsSound :
      (result : Result BucketInfo) (rest : Result (List BucketInfo) × Store) (st : Store)
      → IsSound env st
      → IsSound env rest.1
      → IsSound env (listed result rest st).1
  listed-IsSound (err e) rest st h k = h
  listed-IsSound (ok found) (err e, st') st h k = k
  listed-IsSound (ok found) (ok infos, st') st h k = k

  list_entries-IsSound :
      (fails : Bytes → Faults) (now : ℕ) (entries : List (Bytes × Entry)) (st : Store)
      → IsSound env st
      → IsSound env (list_entries fails now entries st).1
  unfolding list_entries
  list_entries-IsSound fails now [] st h = h
  list_entries-IsSound fails now ((name, entry) ∷ entries) st h =
      let found = get_bucket-IsSound (fails name) now name st h in
      elim (Bool-cases (
        not (is_directory entry)
        || fails name stat_db
        || not (has_database (get name st.entries)))) [
          | inl p ↦ rw p (list_entries-IsSound fails now entries st h)
          | inr p ↦
              rw p (listed-IsSound _ _ _ found (list_entries-IsSound fails now entries _ found))
        ]

  by_name-IsSound :
      (r : Result (List BucketInfo) × Store) → IsSound env r.1 → IsSound env (by_name r).1
  by_name-IsSound (err e, st) h = h
  by_name-IsSound (ok infos, st) h = h

  -- Whatever calls fail, for whichever buckets, a listing of the buckets keeps a sound store sound.
  pub list_buckets-IsSound :
      (root_fails : Faults) (fails : Bytes → Faults) (now : ℕ) (st : Store)
      → IsSound env st
      → IsSound env (list_buckets root_fails fails now st).1
  unfolding list_buckets
  list_buckets-IsSound root_fails fails now st h = elim (Bool-cases (root_fails read_root)) [
    | inl p ↦ rw p h
    | inr p ↦ rw p (by_name-IsSound _ (list_entries-IsSound fails now _ st h))
  ]
