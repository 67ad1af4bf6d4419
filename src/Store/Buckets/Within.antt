-- ===== src/Store/Buckets/Within.antt =====
-- An operation on a bucket of a store: it finds that bucket, changes it and no other.
use objectstorage.Prelude.{ℕ, Option, none, some, true, ◌≡◌, ◌≢◌, refl, arith, inl, inr, Bool-cases}
use objectstorage.Prelude.Bytes.{Bytes, bytes_eq_iff, bytes_Eq}
use objectstorage.Prelude.Dict.{get, get-put}
use objectstorage.Store.Types.{Env, Result, ok, err}
use objectstorage.Store.Names.{valid_bucket_name}
use objectstorage.Store.Bucket.{Bucket, Faults, no_faults}
use objectstorage.Store.Buckets.{
  absent, bare, ready, Entry, regular, directory, Store, content, initialized, with_schema,
  open_database, open_bucket, bucket, within_found, within,
}
use objectstorage.Store.Buckets.Sound.{IsSound}
use objectstorage.Store.Buckets.Lifecycle.{bucket_outcome_lem}

-- A bucket that is on disk is the one that is found.
pub bucket-same :
    (fails : Faults) (now : ℕ) (name : Bytes) (st : Store) (b found : Bucket)
    → content name st ≡ some b
    → (bucket fails now name st).0 ≡ ok found
    → found ≡ b
unfolding bucket open_bucket open_database
bucket-same fails now name st b found here q = split (get name st.entries) refl
  where
    split : (o : Option Entry) → get name st.entries ≡ o → found ≡ b
    split none e = absurd (ground (arith, e, here))
    split (some regular) e = absurd (ground (arith, e, here))
    split (some (directory absent)) e = absurd (ground (arith, e, here))
    split (some (directory bare)) e = absurd (ground (arith, e, here))
    split (some (directory (ready x))) e = ground (arith, e, here, q)

-- Only a valid name finds a bucket.
pub bucket-valid :
    (fails : Faults) (now : ℕ) (name : Bytes) (st : Store) (found : Bucket)
    → (bucket fails now name st).0 ≡ ok found
    → valid_bucket_name name ≡ true
unfolding bucket
bucket-valid fails now name st found q = elim (Bool-cases (valid_bucket_name name)) [
  | inl v ↦ v
  | inr v ↦ absurd (ground (arith, v, q))
]

module _ (fails : Faults) (now : ℕ) (name : Bytes) (st : Store) (other : Bytes)
    (n : name ≢ other) where
  pub bucket-others : get other (bucket fails now name st).1.entries ≡ get other st.entries
  unfolding bucket open_bucket open_database
  bucket-others = split (get name st.entries) refl
    where
      split :
          (o : Option Entry)
          → get name st.entries ≡ o
          → get other (bucket fails now name st).1.entries ≡ get other st.entries
      split none e = ground (arith, e)
      split (some regular) e = ground (arith, e)
      split (some (directory d)) e = ground (
        arith,
        e,
        n,
        get-put name other (directory (ready (initialized name now d))) st.entries,
        get-put name other (directory (with_schema d)) st.entries,
        bytes_eq_iff name other,
      )

  module _ {ℓ} {A : Type ℓ} (op : Bucket → Result A × Bucket) where
    found-others :
        (r : Result Bucket × Store)
        → get other r.1.entries ≡ get other st.entries
        → get other (within_found name op r).1.entries ≡ get other st.entries
    found-others (err e, st') h = h
    found-others (ok b, st') h = ground (
      arith,
      h,
      n,
      get-put name other (directory (ready (op b).1)) st'.entries,
      bytes_eq_iff name other,
    )

    -- Whatever calls fail, an operation on one bucket leaves every other entry of the root directory
    -- as it was.
    pub within-others : get other (within fails now name op st).1.entries ≡ get other st.entries
    unfolding within
    within-others = found-others (bucket fails now name st) bucket-others

module _ (env : Env) (now : ℕ) (name : Bytes) (st : Store) (b : Bucket) (h : IsSound env st)
    (here : content name st ≡ some b) (v : valid_bucket_name name ≡ true) where
  found : (bucket no_faults now name st).0 ≡ ok b
  found = split (get name st.entries) refl
    where
      split : (o : Option Entry) → get name st.entries ≡ o → (bucket no_faults now name st).0 ≡ ok b
      split none e = absurd (ground (arith, e, here))
      split (some regular) e = absurd (ground (arith, e, here))
      split (some (directory absent)) e = absurd (ground (arith, e, here))
      split (some (directory bare)) e = absurd (ground (arith, e, here))
      split (some (directory (ready x))) e =
          ground (arith, e, here, v, bucket_outcome_lem env now name st h)

  module _ {ℓ} {A : Type ℓ} (op : Bucket → Result A × Bucket) where
    found-content :
        (r : Result Bucket × Store)
        → r.0 ≡ ok b
        → ((within_found name op r).0 ≡ (op b).0)
          × (content name (within_found name op r).1 ≡ some (op b).1)
    found-content (err e, st') q = cc
    found-content (ok x, st') q = ground (
      arith,
      q,
      get-put name name (directory (ready (op x).1)) st'.entries,
      bytes_eq_iff name name,
    )

    -- In a sound store, where the search for the bucket does not fail, an operation on a bucket
    -- that is there under a valid name returns what it returns of that bucket, and the bucket is
    -- afterwards what the operation makes of it.
    pub within-content :
        ((within no_faults now name op st).0 ≡ (op b).0)
        × (content name (within no_faults now name op st).1 ≡ some (op b).1)
    unfolding within
    within-content = found-content (bucket no_faults now name st) found
