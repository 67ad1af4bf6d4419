-- ===== src/Store/Writer/Commit.antt =====
-- `Commit` keeps a bucket consistent: first its transaction, then the files.
use objectstorage.Prelude.{ℕ, ◌+◌, Option, none, some, ◌≡◌, refl, arith, ◌⊎◌, inl, inr}
use objectstorage.Prelude.Bytes.{Bytes, bytes_Eq}
use objectstorage.Prelude.Dict.{get, put, remove, count-put, put-IsUnique}
use objectstorage.Store.Types.{Error, Env, Result, ok, err, ObjectInfo, PutOptions}
use objectstorage.Store.Conditions.{check}
use objectstorage.Store.Bucket.{path_Eq, ObjectRow, Tables, Faults, select, scan_object}
use objectstorage.Store.Bucket.Invariant.{IsCounted, refs, refs-remove, refs-remove-none}
use objectstorage.Store.Writer.Counts.{
  lost, refcount-incref_blob, positive-incref_blob, refcount-release, IsPositive-release,
}
use objectstorage.Store.Writer.{
  Writer, incref_blob, release, next_generation, encode, new_row, new_info, commit_rows,
}

-- What `select` has found.
abbrev pub Found : Env → Bytes → Bytes → Tables → Option ObjectInfo → Type 0
Found env bucket name t none = get name t.objects ≡ none
Found env bucket name t (some o) =
    (row : ObjectRow) × (get name t.objects ≡ some row)
    × (scan_object env bucket name row ≡ ok o)
    × (o.sha256 ≡ row.sha256)

pub select-Found :
    (env : Env) (fails : Faults) (bucket name : Bytes) (t : Tables) (o : Option ObjectInfo)
    → select env fails bucket name t ≡ ok o
    → Found env bucket name t o
unfolding select scan_object
select-Found env fails bucket name t none h = ground arith
select-Found env fails bucket name t (some o) h = split (get name t.objects) refl
  where
    split : (r : Option ObjectRow) → get name t.objects ≡ r → Found env bucket name t (some o)
    split none e = absurd (ground arith)
    split (some row) e = (row, e, ground arith, ground arith)

-- What a transaction that succeeds has found and done.
pub record Committed (env : Env) (fails : Faults) (now : ℕ) (w : Writer) (bucket name : Bytes)
    (opts : PutOptions) (t : Tables) (found : ObjectInfo) (orphan : Option Bytes) (t' : Tables)
    : Type 0 where
  pub existing : Option ObjectInfo
  pub selected : select env fails bucket name t ≡ ok existing
  pub passed : check opts.conditions existing ≡ none
  pub released :
      release fails existing (incref_blob (env.sha256_hex w.sha) w.size t.blobs)
      ≡ ok (orphan, t'.blobs)
  pub json : Bytes
  pub encoded : encode env opts.metadata ≡ ok json
  pub objects :
      t'.objects ≡ put name (new_row env now w (next_generation now existing) opts json) t.objects
  pub info : found ≡ new_info env now w bucket name (next_generation now existing) opts

Result-cases : {A : Type 0} (r : Result A) → ((a : A) × (r ≡ ok a)) ⊎ ((e : Error) × (r ≡ err e))
Result-cases (ok a) = inl (a, refl)
Result-cases (err e) = inr (e, refl)

pub commit_rows-Committed :
    (env : Env) (fails : Faults) (now : ℕ) (w : Writer) (bucket name : Bytes) (opts : PutOptions)
    (t : Tables) (found : ObjectInfo) (orphan : Option Bytes) (t' : Tables)
    → commit_rows env fails now w bucket name opts t ≡ ok (found, orphan, t')
    → Committed env fails now w bucket name opts t found orphan t'
unfolding commit_rows
commit_rows-Committed env fails now w bucket name opts t found orphan t' h =
    elim (Result-cases (select env fails bucket name t)) [
      | inr (e, p) ↦ absurd (ground arith)
      | inl (o, p) ↦ elim (Result-cases (encode env opts.metadata)) [
        | inr (e, q) ↦ absurd (ground arith)
        | inl (json, q) ↦ record {
          existing = o;
          selected = p;
          passed = ground arith;
          released = ground arith;
          json = json;
          encoded = q;
          objects = ground arith;
          info = ground arith;
        }
      ]
    ]

module _ (env : Env) (fails : Faults) (now : ℕ) (w : Writer) (bucket name : Bytes)
    (opts : PutOptions) (t : Tables) (found : ObjectInfo) (orphan : Option Bytes) (t' : Tables)
    (c : Committed env fails now w bucket name opts t found orphan t') where
  -- The objects that keep their rows refer to a blob as often as all did, less the one replaced.
  refs_kept :
      (o : Option ObjectInfo) (s : Bytes)
      → IsCounted t
      → Found env bucket name t o
      → refs s t.objects ≡ lost o s + refs s (remove name t.objects)
  refs_kept none s h f = omega (arith, refs-remove-none s name t.objects h.unique f)
  refs_kept (some o) s h (row, was, _, digest) =
      rw digest (refs-remove s name row t.objects h.unique was)

  pub Committed-IsCounted : IsCounted t → IsCounted t'
  Committed-IsCounted h =
      let sha = env.sha256_hex w.sha in
      let blobs = incref_blob sha w.size t.blobs in
      record {
        unique = rw c.objects (put-IsUnique name _ t.objects h.unique);
        positive =
            IsPositive-release fails blobs orphan t'.blobs c.existing c.released
              (λ s row e. positive-incref_blob sha w.size t.blobs s row h.positive e);
        counted = λ s.
            rw (c.objects, count-put)
              (omega (
                arith,
                h.counted s,
                refs_kept c.existing s h
                    (select-Found env fails bucket name t c.existing c.selected),
                refcount-incref_blob sha w.size t.blobs s,
                refcount-release fails blobs orphan t'.blobs c.existing s c.released,
              ));
      }
