-- ===== src/Store/Buckets/Sound.antt =====
-- What keeps a store whole: each bucket is consistent and carries its name, and a handle is open only
-- for a bucket that is there.
use objectstorage.Prelude.{
  ℕ, Option, none, some, Bool, true, false, not, ◌||◌, if◌then◌else◌, ◌≡◌, ◌≢◌, refl, arith, inl,
  inr, Bool-cases, subst,
}
use objectstorage.Prelude.Bytes.{Bytes, bytes_eq, bytes_eq_iff, bytes_Eq}
use objectstorage.Prelude.Dict.{Dict, get, put, remove, count, get-put, get-remove}
use objectstorage.Store.Types.{Env, Result, ok, err}
use objectstorage.Store.Names.{valid_bucket_name}
use objectstorage.Store.Bucket.{Bucket, Faults, exec_schema, insert_info, open_db, stat_db, path_Eq}
use objectstorage.Store.Bucket.Invariant.{IsConsistent}
use objectstorage.Store.Writer.{is_some}
use objectstorage.Store.Buckets.{
  Database, absent, bare, ready, Entry, regular, directory, Store, content_of, content, is_held,
  is_open, has_database, with_schema, new_bucket, initialized, open_database, held, open_bucket,
  bucket,
}

none-ne-some {ℓ} : {A : Type ℓ} {a : A} → none ≢ some a
none-ne-some = ground arith

pub new_bucket-IsConsistent :
    (env : Env) (name : Bytes) (now : ℕ) → IsConsistent env (new_bucket name now)
unfolding get count
new_bucket-IsConsistent env name now = record {
  rows = record { unique = tt; positive = λ s row e. absurd (none-ne-some e); counted = λ s. refl };
  present = λ s row e. absurd (none-ne-some e);
  addressed = λ s c e. absurd (none-ne-some e);
}

abbrev pub IsWhole : Env → Bytes → Option Bucket → Type 0
IsWhole env name none = Unit
IsWhole env name (some b) = IsConsistent env b × (b.name ≡ name)

pub record IsSound (env : Env) (st : Store) : Type 0 where
  pub whole : (name : Bytes) → IsWhole env name (content name st)
  pub handles :
      (name : Bytes)
      → is_open name st ≡ true
      → (valid_bucket_name name ≡ true) × (is_some (content name st) ≡ true)

module _ (env : Env) (name : Bytes) (st : Store) (h : IsSound env st) where
  put-IsWhole :
      (entry : Entry)
      → IsWhole env name (content_of (some entry))
      → (other : Bytes) → IsWhole env other (content_of (get other (put name entry st.entries)))
  put-IsWhole entry whole other =
      rw (get-put name other entry st.entries) (choose (bytes_eq name other) refl)
    where
      choose :
          (same : Bool)
          → bytes_eq name other ≡ same
          → IsWhole env other (content_of (if same then some entry else get other st.entries))
      choose true e =
          subst (λ n. IsWhole env n (content_of (some entry))) ((bytes_eq_iff name other).0 e) whole
      choose false e = h.whole other

  -- An entry is replaced; no handle is open but those that were, and its own if it is a bucket's.
  pub put-IsSound :
      (entry : Entry) (handles : Dict Bytes (Unit {0}))
      → IsWhole env name (content_of (some entry))
      → ((other : Bytes)
          → bytes_eq name other ≡ false
          → is_held (get other handles) ≡ true
          → is_open other st ≡ true)
      → (is_held (get name handles) ≡ true
          → (valid_bucket_name name ≡ true) × (is_some (content_of (some entry)) ≡ true))
      → IsSound env (record { entries = put name entry st.entries; handles = handles })
  put-IsSound entry handles whole others self = record {
    whole = put-IsWhole entry whole;
    handles = λ other o. grind (
      arith,
      bytes_eq_iff name other,
      get-put name other entry st.entries,
      others other,
      self,
      h.handles other,
    );
  }

  -- A handle is closed.
  pub close-IsSound : IsSound env (record st { handles = remove name st.handles })
  close-IsSound = record {
    whole = h.whole;
    handles = λ other o. ground (arith, get-remove name other st.handles, h.handles other);
  }

  pub remove-IsSound :
      is_open name st ≡ false → IsSound env (record st { entries = remove name st.entries })
  remove-IsSound closed = record {
    whole = λ other. rw (get-remove name other st.entries) (choose other (bytes_eq name other));
    handles = λ other o.
        grind (arith, bytes_eq_iff name other, get-remove name other st.entries, h.handles other);
  }
    where
      choose :
          (other : Bytes) (same : Bool)
          → IsWhole env other (content_of (if same then none else get other st.entries))
      choose other true = tt
      choose other false = h.whole other

-- What the search for a bucket gives: a sound store, and the bucket that it holds under the name.
abbrev pub Found : Env → Bytes → Result Bucket × Store → Type 0
Found env name (err e, st) = IsSound env st
Found env name (ok b, st) =
    IsSound env st × ((content name st ≡ some b) × (valid_bucket_name name ≡ true))

module _ (env : Env) (fails : Faults) (now : ℕ) (name : Bytes) where
  schema-IsWhole :
      (st : Store) (d : Database)
      → IsSound env st
      → get name st.entries ≡ some (directory d)
      → IsWhole env name (content_of (some (directory (with_schema d))))
  schema-IsWhole st absent h e = tt
  schema-IsWhole st bare h e = tt
  schema-IsWhole st (ready b) h e = subst (λ o. IsWhole env name (content_of o)) e (h.whole name)

  initialized-IsWhole :
      (st : Store) (d : Database)
      → IsSound env st
      → get name st.entries ≡ some (directory d)
      → IsWhole env name (some (initialized name now d))
  initialized-IsWhole st absent h e = (new_bucket-IsConsistent env name now, refl)
  initialized-IsWhole st bare h e = (new_bucket-IsConsistent env name now, refl)
  initialized-IsWhole st (ready b) h e =
      subst (λ o. IsWhole env name (content_of o)) e (h.whole name)

  open_database-Found :
      (st : Store) (o : Option Entry)
      → IsSound env st
      → valid_bucket_name name ≡ true
      → is_open name st ≡ false
      → get name st.entries ≡ o
      → Found env name (open_database fails now name st o)
  unfolding open_database
  open_database-Found st none h v closed e = h
  open_database-Found st (some regular) h v closed e = h
  open_database-Found st (some (directory d)) h v closed e =
      elim (Bool-cases (fails open_db || fails exec_schema)) [
        | inl p ↦ rw p h
        | inr p ↦ elim (Bool-cases (fails insert_info)) [
          | inl q ↦
              rw (p, q)
                (put-IsSound env name st h _ st.handles (schema-IsWhole st d h e) (λ other n o. o)
                  (λ o. absurd (ground (arith, o, closed))))
          | inr q ↦
              rw (p, q)
                (
                  put-IsSound env name st h _ _ (initialized-IsWhole st d h e)
                      (λ other n o. ground (arith, get-put name other tt st.handles))
                      (λ o. (v, refl)),
                  (
                    ground (
                      arith,
                      get-put name name (directory (ready (initialized name now d))) st.entries,
                      bytes_eq_iff name name,
                    ),
                    v,
                  ),
                )
        ]
      ]

  held-Found :
      (st : Store) (o : Option Bucket)
      → IsSound env st
      → valid_bucket_name name ≡ true
      → content name st ≡ o
      → Found env name (held o, st)
  held-Found st none h v e = h
  held-Found st (some b) h v e = (h, (e, v))

  pub open_bucket-Found :
      (st : Store)
      → IsSound env st
      → valid_bucket_name name ≡ true
      → Found env name (open_bucket fails now name st)
  unfolding open_bucket
  open_bucket-Found st h v = elim (Bool-cases (is_open name st)) [
    | inl p ↦ rw p (held-Found st (content name st) h v refl)
    | inr p ↦ rw p (open_database-Found st (get name st.entries) h v p refl)
  ]

  -- The search for a bucket keeps a store sound, and gives the bucket that the store then holds.
  pub bucket-Found : (st : Store) → IsSound env st → Found env name (bucket fails now name st)
  unfolding bucket
  bucket-Found st h = elim (Bool-cases (valid_bucket_name name)) [
    | inr v ↦ rw v h
    | inl v ↦ elim (Bool-cases (is_open name st)) [
      | inl p ↦ rw (v, p) (held-Found st (content name st) h v refl)
      | inr p ↦ elim (Bool-cases (fails stat_db || not (has_database (get name st.entries)))) [
        | inl q ↦ rw (v, p, q) h
        | inr q ↦ rw (v, p, q) (open_bucket-Found st h v)
      ]
    ]
  ]

  pub Found-IsSound : (r : Result Bucket × Store) → Found env name r → IsSound env r.1
  Found-IsSound (err e, st) h = h
  Found-IsSound (ok b, st) h = h.0
