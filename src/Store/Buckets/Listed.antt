-- ===== src/Store/Buckets/Listed.antt =====
-- What `ListBuckets` returns: every bucket of the root directory, in the order of the names.
use objectstorage.Prelude.{
  ℕ, none, some, true, false, if◌then◌else◌, List, [], ◌∷◌, ◌≡◌, ◌≢◌, refl, arith, inl, inr,
  Bool-cases, subst, ap, sym, ◌∙◌,
}
use objectstorage.Prelude.Bytes.{Bytes, bytes_eq_iff, bytes_Eq, bytes_lt, bytes_lt_irrefl}
use objectstorage.Prelude.Dict.{Dict, get, IsUnique}
use objectstorage.Store.Types.{Env, Result, ok, err, BucketInfo}
use objectstorage.Store.Names.{valid_bucket_name}
use objectstorage.Store.Bucket.{Bucket, Faults, no_faults, info}
use objectstorage.Store.Listing.{order_by}
use objectstorage.Store.Listing.Reference.{All, All-map, All-zip}
use objectstorage.Store.Listing.Scan.{IsRising, IsDistinct, order_by-All, order_by-IsRising}
use objectstorage.Store.Buckets.{
  absent, bare, ready, Entry, regular, directory, Store, content_of, is_directory, has_database,
  new_bucket, bucket, describe, get_bucket, listed, list_entries, list_buckets, entry_name, by_name,
}
use objectstorage.Store.Buckets.Sound.{IsSound, IsWhole}
use objectstorage.Store.Buckets.Keeps.{get_bucket-IsSound}
use objectstorage.Store.Buckets.Lifecycle.{bucket_outcome_lem}
use objectstorage.Store.Buckets.Within.{bucket-others}

-- The buckets among the entries; one whose row of `bucket_info` is missing gets it now.
abbrev pub infos_of : ℕ → List (Bytes × Entry) → List BucketInfo
infos_of now [] = []
infos_of now ((name, regular) ∷ entries) = infos_of now entries
infos_of now ((name, directory absent) ∷ entries) = infos_of now entries
infos_of now ((name, directory bare) ∷ entries) = info (new_bucket name now) ∷ infos_of now entries
infos_of now ((name, directory (ready b)) ∷ entries) = info b ∷ infos_of now entries

abbrev pub entry_of : Bytes × Entry → Entry
entry_of (name, entry) = entry

-- An entry stands in the root directory, and has a database only under a valid name.
abbrev pub Stands : Store → Bytes × Entry → Type 0
Stands st r =
    (get (entry_name r) st.entries ≡ some (entry_of r))
    × (has_database (some (entry_of r)) ≡ true → valid_bucket_name (entry_name r) ≡ true)

describe-others :
    (fails : Faults) (now : ℕ) (name other : Bytes) (st : Store)
    → name ≢ other
    → get other (get_bucket fails now name st).1.entries ≡ get other st.entries
unfolding get_bucket
describe-others fails now name other st n =
    after (bucket fails now name st) (bucket-others fails now name st other n)
  where
    after :
        (r : Result Bucket × Store)
        → get other r.1.entries ≡ get other st.entries
        → get other (describe fails r).1.entries ≡ get other st.entries
    after (err e, st') h = h
    after (ok b, st') h = h

module _ (env : Env) (now : ℕ) where
  found_info :
      (name : Bytes) (entry : Entry) (st : Store)
      → IsSound env st
      → Stands st (name, entry)
      → has_database (some entry) ≡ true
      → (i : BucketInfo) × ((get_bucket no_faults now name st).0 ≡ ok i)
        × ((es : List (Bytes × Entry)) → infos_of now ((name, entry) ∷ es) ≡ i ∷ infos_of now es)
  unfolding get_bucket
  found_info name regular st h s d = cc
  found_info name (directory absent) st h s d = cc
  found_info name (directory bare) st h (at, v) d = (
    info (new_bucket name now),
    ground (arith, at, v d, bucket_outcome_lem env now name st h),
    λ es. refl,
  )
  found_info name (directory (ready b)) st h (at, v) d =
      (info b, ground (arith, at, v d, bucket_outcome_lem env now name st h), λ es. refl)

  passed_over :
      (name : Bytes) (entry : Entry) (es : List (Bytes × Entry))
      → has_database (some entry) ≡ false
      → infos_of now ((name, entry) ∷ es) ≡ infos_of now es
  passed_over name regular es d = refl
  passed_over name (directory absent) es d = refl
  passed_over name (directory bare) es d = cc
  passed_over name (directory (ready b)) es d = cc

  is_directory-has_database :
      (entry : Entry) → has_database (some entry) ≡ true → is_directory entry ≡ true
  is_directory-has_database regular h = cc
  is_directory-has_database (directory d) h = refl

  listed_ok :
      (i : BucketInfo) (infos : List BucketInfo) (rest : Result (List BucketInfo) × Store)
      (st : Store)
      → rest.0 ≡ ok infos
      → (listed (ok i) rest st).0 ≡ ok (i ∷ infos)
  listed_ok i infos (ok x, st') st h = cc
  listed_ok i infos (err e, st') st h = cc

  list_entries_lem :
      (entries : List (Bytes × Entry)) (st : Store)
      → IsSound env st
      → IsRising entry_name entries
      → All (Stands st) entries
      → (list_entries (λ _. no_faults) now entries st).0 ≡ ok (infos_of now entries)
  unfolding list_entries
  list_entries_lem [] st h rise s = refl
  list_entries_lem ((name, entry) ∷ es) st h (above, rise) (at, s) =
      elim (Bool-cases (has_database (some entry))) [
        | inr d ↦
            ground (arith, at.0, d, passed_over name entry es d, list_entries_lem es st h rise s)
        | inl d ↦
            let (i, found, infos) = found_info name entry st h at d in
            let st' = (get_bucket no_faults now name st).1 in
            let rest =
              list_entries_lem es st' (get_bucket-IsSound env no_faults now name st h) rise
                (All-zip es (stands st name) above s) in
            ground (
              arith,
              at.0,
              d,
              found,
              infos es,
              is_directory-has_database entry d,
              listed_ok i (infos_of now es) (list_entries (λ _. no_faults) now es st') st' rest,
            )
      ]
    where
      stands :
          (st : Store) (name : Bytes) (r : Bytes × Entry)
          → bytes_lt name (entry_name r) ≡ true
          → Stands st r
          → Stands (get_bucket no_faults now name st).1 r
      stands st name r lt (at, v) = (
        describe-others no_faults now name (entry_name r) st (λ e.
              ground (arith, subst (λ n. bytes_lt name n ≡ true) (sym e) lt, bytes_lt_irrefl name))
            ∙ at,
        v,
      )

get-none :
    (name : Bytes) (entries : Dict Bytes Entry)
    → get name entries ≡ none
    → All (λ r. name ≢ entry_name r) entries
unfolding get
get-none name [] h = tt
get-none name ((other, entry) ∷ entries) h =
    (λ e. ground (arith, bytes_eq_iff other name), get-none name entries (ground arith))

IsUnique-IsDistinct :
    (entries : Dict Bytes Entry) → IsUnique entries → IsDistinct entry_name entries
IsUnique-IsDistinct [] h = tt
IsUnique-IsDistinct ((name, entry) ∷ entries) (h, hs) =
    (get-none name entries h, IsUnique-IsDistinct entries hs)

-- Each entry is found under its name.
get-entry_of :
    (entries : Dict Bytes Entry)
    → IsUnique entries
    → All (λ r. get (entry_name r) entries ≡ some (entry_of r)) entries
unfolding get
get-entry_of [] h = tt
get-entry_of ((name, entry) ∷ entries) (h, hs) = (
  ground (arith, bytes_eq_iff name name),
  All-zip entries (λ r n e. ground (arith, e, n, bytes_eq_iff name (entry_name r)))
      (get-none name entries h) (get-entry_of entries hs),
)

order_by-rising :
    {A : Type 0} (name : A → Bytes) (xs : List A) → IsRising name xs → order_by name xs ≡ xs
unfolding order_by
order_by-rising name [] h = refl
order_by-rising name (x ∷ []) h = refl
order_by-rising name (x ∷ y ∷ xs) ((lt, above), h) =
    rw (order_by-rising name (y ∷ xs) h, lt, if◌then◌else◌) refl

by_name_ok :
    (infos : List BucketInfo) (r : Result (List BucketInfo) × Store)
    → r.0 ≡ ok infos
    → (by_name r).0 ≡ ok (order_by (λ i. i.name) infos)
by_name_ok infos (err e, st) h = cc
by_name_ok infos (ok x, st) h = cc

module _ (env : Env) (now : ℕ) (st : Store) (h : IsSound env st) (u : IsUnique st.entries)
    (v : (name : Bytes)
      → has_database (get name st.entries) ≡ true
      → valid_bucket_name name ≡ true) where
  abbrev ordered : List (Bytes × Entry)
  ordered = order_by entry_name st.entries

  ordered-Stands : All (Stands st) ordered
  ordered-Stands = order_by-All entry_name (Stands st) st.entries (
      All-map st.entries (λ r e. (e, λ d. v (entry_name r) (ground (arith, e, d))))
        (get-entry_of st.entries u))

  infos_of-All :
      (P : Bytes → Type 0) (entries : List (Bytes × Entry))
      → All (Stands st) entries
      → All (λ r. P (entry_name r)) entries
      → All (λ i. P i.name) (infos_of now entries)
  unfolding info
  infos_of-All P [] s a = tt
  infos_of-All P ((name, regular) ∷ entries) (s, ss) (a, rest) = infos_of-All P entries ss rest
  infos_of-All P ((name, directory absent) ∷ entries) (s, ss) (a, rest) =
      infos_of-All P entries ss rest
  infos_of-All P ((name, directory bare) ∷ entries) (s, ss) (a, rest) =
      (a, infos_of-All P entries ss rest)
  infos_of-All P ((name, directory (ready b)) ∷ entries) (s, ss) (a, rest) =
      (named name b s.0 a, infos_of-All P entries ss rest)
    where
      named :
          (name : Bytes) (b : Bucket)
          → get name st.entries ≡ some (directory (ready b))
          → P name
          → P (info b).name
      named name b e p =
          subst P (sym (subst (λ o. IsWhole env name (content_of o)) e (h.whole name)).1) p

  infos_of-IsRising :
      (entries : List (Bytes × Entry))
      → All (Stands st) entries
      → IsRising entry_name entries
      → IsRising (λ (i : BucketInfo). i.name) (infos_of now entries)
  unfolding info
  infos_of-IsRising [] s r = tt
  infos_of-IsRising ((name, regular) ∷ entries) (s, ss) (r, rs) = infos_of-IsRising entries ss rs
  infos_of-IsRising ((name, directory absent) ∷ entries) (s, ss) (r, rs) =
      infos_of-IsRising entries ss rs
  infos_of-IsRising ((name, directory bare) ∷ entries) (s, ss) (r, rs) =
      (infos_of-All (λ n. bytes_lt name n ≡ true) entries ss r, infos_of-IsRising entries ss rs)
  infos_of-IsRising ((name, directory (ready b)) ∷ entries) (s, ss) (r, rs) = (
    subst (λ m. All (λ (i : BucketInfo). bytes_lt m i.name ≡ true) (infos_of now entries))
        (sym (subst (λ o. IsWhole env name (content_of o)) s.0 (h.whole name)).1)
        (infos_of-All (λ n. bytes_lt name n ≡ true) entries ss r),
    infos_of-IsRising entries ss rs,
  )

  -- In a sound store whose entries have one name each, and databases under valid names only, where
  -- no call fails, a listing of the buckets returns each bucket of the root directory, once, in the
  -- order of the names, whichever handles are open.
  pub list_buckets_lem :
      (list_buckets no_faults (λ _. no_faults) now st).0 ≡ ok (infos_of now ordered)
  unfolding list_buckets
  list_buckets_lem =
      let rising = order_by-IsRising entry_name st.entries (IsUnique-IsDistinct st.entries u) in
      by_name_ok (infos_of now ordered) _
        (list_entries_lem env now ordered st h rising ordered-Stands)
      ∙ ap (λ (infos : List BucketInfo). ok infos)
          (order_by-rising (λ (i : BucketInfo). i.name) (infos_of now ordered)
            (infos_of-IsRising ordered ordered-Stands rising))
