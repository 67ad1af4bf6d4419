-- ===== src/Store/Writer/Put.antt =====
-- `PutObject`: create, copy, commit; or abort where the reader or a write fails.
use objectstorage.Prelude.{
  ℕ, Option, none, some, Bool, List, [], ◌∷◌, ◌++◌, ◌≡◌, refl, arith, take, inl, inr, Bool-cases,
  ◌∙◌, ap,
}
use objectstorage.Prelude.Bytes.{Bytes, bytes_Eq}
use objectstorage.Prelude.Dict.{get, put, get-put}
use objectstorage.Store.Types.{Env, Result, ok, err, ObjectInfo, PutOptions}
use objectstorage.Store.Bucket.{
  no_faults, temp, path_Eq, blob_path, Bucket, Faults, open_object, create_temp,
}
use objectstorage.Store.Bucket.Invariant.{IsConsistent}
use objectstorage.Store.Writer.{Writer, new_blob_writer, write, append_file}
use objectstorage.Store.Writer.Copy.{copy, resume, put_copied, put_started, put_object}
use objectstorage.Store.Writer.Stream.{IsSynced, copy-IsCopied, concat, new_blob_writer-IsSynced}
use objectstorage.Store.Writer.Consistent.{commit-IsConsistent, abort-IsConsistent}
use objectstorage.Store.Writer.ReadBack.{RoundTrips, in_micros, open_object-commit}

pub temp-IsConsistent :
    (env : Env) (temp_name content : Bytes) (b : Bucket)
    → IsConsistent env b
    → IsConsistent env (record b { files = put (temp temp_name) content b.files })
unfolding blob_path
temp-IsConsistent env temp_name content b h = record {
  rows = h.rows;
  present = λ s row e.
      let (c, at) = h.present s row e in
      (c, ground (arith, get-put (temp temp_name) (blob_path s) content b.files));
  addressed = λ s c e.
      h.addressed s c (ground (arith, get-put (temp temp_name) (blob_path s) content b.files));
}

append_file-IsConsistent :
    (env : Env) (temp_name p : Bytes) (b : Bucket)
    → IsConsistent env b
    → IsConsistent env (record b { files = append_file (temp temp_name) p b.files })
append_file-IsConsistent env temp_name p b h = split (get (temp temp_name) b.files) refl
  where
    split :
        (o : Option Bytes)
        → get (temp temp_name) b.files ≡ o
        → IsConsistent env (record b { files = append_file (temp temp_name) p b.files })
    split none e = simp e h
    split (some c) e = simp e (temp-IsConsistent env temp_name (c ++ p) b h)

module _ (env : Env) where
  pub new_blob_writer-IsConsistent :
      (fails : Faults) (temp_name : Bytes) (b : Bucket)
      → IsConsistent env b
      → IsConsistent env (new_blob_writer fails temp_name b).1
  unfolding new_blob_writer
  new_blob_writer-IsConsistent fails temp_name b h = elim (Bool-cases (fails create_temp)) [
    | inl p ↦ rw p h
    | inr p ↦ rw p (temp-IsConsistent env temp_name [] b h)
  ]

  pub write-IsConsistent :
      (p : Bytes) (n : ℕ) (w : Writer) (b : Bucket)
      → IsConsistent env b
      → IsConsistent env (write p n w b).2
  unfolding write
  write-IsConsistent p n w b h = elim (Bool-cases w.done) [
    | inl q ↦ simp q h
    | inr q ↦ simp q (append_file-IsConsistent env w.temp_name (take n p) b h)
  ]

  resume-IsConsistent :
      (result : Result ℕ) (rest : Result (Unit {0}) × Writer × Bucket) (w : Writer) (b : Bucket)
      → IsConsistent env b
      → IsConsistent env rest.2
      → IsConsistent env (resume result rest w b).2
  resume-IsConsistent (ok n) rest w b h k = k
  resume-IsConsistent (err e) rest w b h k = h

  pub copy-IsConsistent :
      (chunks : List (Bytes × ℕ)) (broken : Bool) (w : Writer) (b : Bucket)
      → IsConsistent env b
      → IsConsistent env (copy chunks broken w b).2
  unfolding copy
  copy-IsConsistent [] broken w b h = h
  copy-IsConsistent ((p, n) ∷ chunks) broken w b h =
      let k = write-IsConsistent p n w b h in
      resume-IsConsistent (write p n w b).0 _ _ _ k
        (copy-IsConsistent chunks broken (write p n w b).1 (write p n w b).2 k)

module _ (env : Env) (fails : Faults) (now : ℕ) (temp_name name : Bytes) (chunks : List (Bytes × ℕ))
    (broken : Bool) (opts : PutOptions) where
  copied-IsConsistent :
      (r : Result (Unit {0}) × Writer × Bucket)
      → (r.0 ≡ ok tt → IsSynced r.1 r.2)
      → IsConsistent env r.2
      → IsConsistent env (put_copied env fails now name opts r).1
  copied-IsConsistent (ok x, w, b) s h = commit-IsConsistent env fails now name opts w b (s refl) h
  copied-IsConsistent (err e, w, b) s h = abort-IsConsistent env fails w b h

  started-IsConsistent :
      (r : Result Writer × Bucket)
      → ((w : Writer) → r.0 ≡ ok w → IsSynced w r.1)
      → IsConsistent env r.1
      → IsConsistent env (put_started env fails now name chunks broken opts r).1
  started-IsConsistent (err e, b) s h = h
  started-IsConsistent (ok w, b) s h =
      copied-IsConsistent (copy chunks broken w b)
        (λ e. (copy-IsCopied chunks broken w b (s w refl) e).synced)
        (copy-IsConsistent env chunks broken w b h)

  -- Whatever calls fail, and wherever the reader breaks off, a put keeps a consistent bucket
  -- consistent.
  pub put_object-IsConsistent :
      (b : Bucket)
      → IsConsistent env b
      → IsConsistent env (put_object env fails now temp_name name chunks broken opts b).1
  unfolding put_object
  put_object-IsConsistent b h =
      started-IsConsistent (new_blob_writer fails temp_name b)
        (λ w e. (new_blob_writer-IsSynced fails temp_name b w e).1)
        (new_blob_writer-IsConsistent env fails temp_name b h)

  module _ (found : ObjectInfo) (json : RoundTrips env opts)
      (injective : (x y : Bytes) → env.sha256_hex x ≡ env.sha256_hex y → x ≡ y) where
    abbrev Reads : Bytes → Bucket → Type 0
    Reads content b = open_object env no_faults name b ≡ ok (in_micros found, content)

    copied-Reads :
        (content : Bytes) (r : Result (Unit {0}) × Writer × Bucket)
        → (r.0 ≡ ok tt → (r.1.sha ≡ content) × IsSynced r.1 r.2)
        → IsConsistent env r.2
        → (put_copied env fails now name opts r).0 ≡ ok found
        → Reads content (put_copied env fails now name opts r).1
    copied-Reads content (err e, w, b) s h q = cc
    copied-Reads content (ok x, w, b) s h q =
        let (sha, synced) = s refl in
        rw (← sha) (open_object-commit env fails now w name opts b found q json injective synced h)

    started-Reads :
        (r : Result Writer × Bucket)
        → ((w : Writer) → r.0 ≡ ok w → (w.sha ≡ []) × IsSynced w r.1)
        → IsConsistent env r.1
        → (put_started env fails now name chunks broken opts r).0 ≡ ok found
        → Reads (concat chunks) (put_started env fails now name chunks broken opts r).1
    started-Reads (err e, b) s h q = cc
    started-Reads (ok w, b) s h q =
        let (fresh, synced) = s w refl in
        copied-Reads (concat chunks) (copy chunks broken w b)
          (λ e.
            let c = copy-IsCopied chunks broken w b synced e in
            (c.content ∙ ap (λ (x : Bytes). x ++ concat chunks) fresh, c.synced))
          (copy-IsConsistent env chunks broken w b h) q

    -- Where JSON gives back the metadata and no two contents have the same digest, an object that has
    -- been put into a consistent bucket is read back as it was returned, times in microseconds, and
    -- its content is the chunks of the reader, one after the other.
    pub open_object-put_object :
        (b : Bucket)
        → IsConsistent env b
        → (put_object env fails now temp_name name chunks broken opts b).0 ≡ ok found
        → open_object env no_faults name
            (put_object env fails now temp_name name chunks broken opts b).1
          ≡ ok (in_micros found, concat chunks)
    unfolding put_object
    open_object-put_object b h q =
        started-Reads (new_blob_writer fails temp_name b)
          (new_blob_writer-IsSynced fails temp_name b)
          (new_blob_writer-IsConsistent env fails temp_name b h) q
