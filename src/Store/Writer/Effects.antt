-- ===== src/Store/Writer/Effects.antt =====
-- What a commit returns, and what it changes: on success one object, on an error none.
use objectstorage.Prelude.{
  ℕ, Option, some, Bool, true, false, if◌then◌else◌, ◌≡◌, refl, arith, inl, inr, Bool-cases,
}
use objectstorage.Prelude.Bytes.{Bytes, bytes_eq, bytes_Eq}
use objectstorage.Prelude.Dict.{Dict, get, get-put}
use objectstorage.Store.Types.{Error, call_failed, Env, Result, ok, err, ObjectInfo, PutOptions}
use objectstorage.Store.Conditions.{Satisfies, check_sound}
use objectstorage.Store.Names.{valid_object_name}
use objectstorage.Store.Bucket.{
  FilePath, path_Eq, Tables, Bucket, Faults, begin, sync, close, select,
}
use objectstorage.Store.Writer.{
  Writer, commit_rows, remove_orphan, install, commit_end, commit_installed, commit_body, commit,
  new_row, next_generation, new_info, encode,
}
use objectstorage.Store.Writer.Commit.{Committed, commit_rows-Committed}

module _ (env : Env) (fails : Faults) (now : ℕ) (w : Writer) (name : Bytes) (opts : PutOptions)
    (b : Bucket) where
  -- Where a commit gets to, by its outcome.
  abbrev Outcome : Result ObjectInfo × Bucket → Type 0
  Outcome (err e, b') = b'.tables ≡ b.tables
  Outcome (ok found, b') =
      (orphan : Option Bytes) × (files : Dict FilePath Bytes) × (valid_object_name name ≡ true)
      × (install fails w.temp_name (env.sha256_hex w.sha) b.files ≡ ok files)
      × Committed env fails now w b.name name opts b.tables found orphan b'.tables
      × (b'.files ≡ remove_orphan fails orphan files)
      × (b'.name ≡ b.name)

  commit_end-Outcome :
      (files : Dict FilePath Bytes) (r : Result (ObjectInfo × Option Bytes × Tables))
      → valid_object_name name ≡ true
      → install fails w.temp_name (env.sha256_hex w.sha) b.files ≡ ok files
      → commit_rows env fails now w b.name name opts b.tables ≡ r
      → Outcome (commit_end fails (record b { files = files }) r)
  commit_end-Outcome files (err e) v i done = refl
  commit_end-Outcome files (ok (found, orphan, t)) v i done = (
    orphan,
    files,
    v,
    i,
    commit_rows-Committed env fails now w b.name name opts b.tables found orphan t done,
    refl,
    refl,
  )

  commit_installed-Outcome :
      (r : Result (Dict FilePath Bytes))
      → valid_object_name name ≡ true
      → install fails w.temp_name (env.sha256_hex w.sha) b.files ≡ r
      → Outcome (commit_installed env fails now w name opts b r)
  unfolding commit_installed
  commit_installed-Outcome (err e) v done = refl
  commit_installed-Outcome (ok files) v done = elim (Bool-cases (fails begin)) [
    | inl p ↦ rw p refl
    | inr p ↦ rw p (commit_end-Outcome files _ v done refl)
  ]

  commit_body-Outcome : Outcome (commit_body env fails now w name opts b)
  unfolding commit_body
  commit_body-Outcome = elim (Bool-cases (valid_object_name name)) [
    | inr v ↦ rw v refl
    | inl v ↦ rw v (
        unless_err (fails sync) call_failed _
          (unless_err (fails close) call_failed _ (commit_installed-Outcome _ v refl)))
  ]
    where
      unless_err :
          (test : Bool) (e : Error) (r : Result ObjectInfo × Bucket)
          → Outcome r
          → Outcome (if test then (err e, b) else r)
      unless_err true e r h = refl
      unless_err false e r h = h

  Outcome-err :
      (e : Error) (r : Result ObjectInfo × Bucket) → Outcome r → r.0 ≡ err e → r.1.tables ≡ b.tables
  Outcome-err e (err x, b') h p = h
  Outcome-err e (ok found, b') h p = cc

  -- A commit that returns an error, for whatever reason, has left the tables as they were.
  pub commit-err :
      (e : Error)
      → (commit env fails now name opts w b).0 ≡ err e
      → (commit env fails now name opts w b).2.tables ≡ b.tables
  unfolding commit
  commit-err e h = elim (Bool-cases w.done) [
    | inl p ↦ simp p
    | inr p ↦
        simp p (
          Outcome-err e (commit_body env fails now w name opts b) commit_body-Outcome (simp p at h))
  ]

  -- What a commit that succeeds has done: the preconditions held of what was live, the name was
  -- valid, the result describes the object, its row stands under the name and the others stand.
  pub record IsPut (found : ObjectInfo) (b' : Bucket) : Type 0 where
    pub existing : Option ObjectInfo
    pub selected : select env fails b.name name b.tables ≡ ok existing
    pub passed : Satisfies opts.conditions existing
    pub valid : valid_object_name name ≡ true
    pub info : found ≡ new_info env now w b.name name (next_generation now existing) opts
    pub json : Bytes
    pub encoded : encode env opts.metadata ≡ ok json
    pub rows :
        (other : Bytes)
        → get other b'.objects ≡ (
            if bytes_eq name other
            then some (new_row env now w (next_generation now existing) opts json)
            else get other b.objects)
    pub bucket : b'.name ≡ b.name

  Outcome-IsPut :
      (found : ObjectInfo) (r : Result ObjectInfo × Bucket)
      → Outcome r
      → r.0 ≡ ok found
      → IsPut found r.1
  Outcome-IsPut found (err e, b') h p = cc
  Outcome-IsPut found (ok x, b') (orphan, files, v, i, c, _, n) p = record {
    existing = c.existing;
    selected = c.selected;
    passed = check_sound opts.conditions c.existing c.passed;
    valid = v;
    info = cc (c.info, p);
    json = c.json;
    encoded = c.encoded;
    rows = λ other. rw c.objects (get-put name other _ b.objects);
    bucket = n;
  }

  files-IsPut :
      (found : ObjectInfo) (b' : Bucket) (files : Dict FilePath Bytes)
      → IsPut found b'
      → IsPut found (record b' { files = files })
  files-IsPut found b' files h = record {
    existing = h.existing;
    selected = h.selected;
    passed = h.passed;
    valid = h.valid;
    info = h.info;
    json = h.json;
    encoded = h.encoded;
    rows = h.rows;
    bucket = h.bucket;
  }

  -- Whatever other calls fail, a commit that succeeds has found its preconditions satisfied and its
  -- name valid; the row of the described object stands under the name, and every other row stands.
  pub commit-IsPut :
      (found : ObjectInfo)
      → (commit env fails now name opts w b).0 ≡ ok found
      → IsPut found (commit env fails now name opts w b).2
  unfolding commit
  commit-IsPut found h = elim (Bool-cases w.done) [
    | inl p ↦ absurd (ground arith)
    | inr p ↦ simp p (
        files-IsPut found _ _ (
          Outcome-IsPut found (commit_body env fails now w name opts b) commit_body-Outcome
            (simp p at h)))
  ]
