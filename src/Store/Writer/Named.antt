-- ===== src/Store/Writer/Named.antt =====
-- No operation of a writer changes the name of its bucket.
use objectstorage.Prelude.{ℕ, Option, Bool, List, [], ◌∷◌, ◌≡◌, refl, arith, ◌∙◌}
use objectstorage.Prelude.Bytes.{Bytes}
use objectstorage.Prelude.Dict.{Dict}
use objectstorage.Store.Types.{Env, Result, ok, err, ObjectInfo, PutOptions}
use objectstorage.Store.Bucket.{FilePath, Tables, Bucket, Faults}
use objectstorage.Store.Writer.{
  Writer, new_blob_writer, write, abort, install, commit_end, commit_installed, commit_body, commit,
  commit_rows,
}
use objectstorage.Store.Writer.Copy.{copy, resume, put_copied, put_started, put_object}

module _ (env : Env) (fails : Faults) (now : ℕ) (name : Bytes) (opts : PutOptions) where
  end_name :
      (b : Bucket) (r : Result (ObjectInfo × Option Bytes × Tables))
      → (commit_end fails b r).1.name ≡ b.name
  end_name b (err e) = refl
  end_name b (ok (found, orphan, t)) = refl

  installed_name :
      (w : Writer) (b : Bucket) (r : Result (Dict FilePath Bytes))
      → (commit_installed env fails now w name opts b r).1.name ≡ b.name
  unfolding commit_installed
  installed_name w b (err e) = refl
  installed_name w b (ok files) = ground (
    arith,
    end_name (record b { files = files }) (commit_rows env fails now w b.name name opts b.tables),
  )

  pub commit_name : (w : Writer) (b : Bucket) → (commit env fails now name opts w b).2.name ≡ b.name
  unfolding commit commit_body
  commit_name w b =
      ground (arith, installed_name w b (install fails w.temp_name (env.sha256_hex w.sha) b.files))

  pub abort_name : (w : Writer) (b : Bucket) → (abort fails w b).1.name ≡ b.name
  unfolding abort
  abort_name w b = ground arith

  resume_name :
      (result : Result ℕ) (rest : Result (Unit {0}) × Writer × Bucket) (w : Writer) (b : Bucket)
      → rest.2.name ≡ b.name
      → (resume result rest w b).2.name ≡ b.name
  resume_name (ok n) rest w b h = h
  resume_name (err e) rest w b h = refl

  write_name : (p : Bytes) (n : ℕ) (w : Writer) (b : Bucket) → (write p n w b).2.name ≡ b.name
  unfolding write
  write_name p n w b = ground arith

  pub copy_name :
      (chunks : List (Bytes × ℕ)) (broken : Bool) (w : Writer) (b : Bucket)
      → (copy chunks broken w b).2.name ≡ b.name
  unfolding copy
  copy_name [] broken w b = refl
  copy_name ((p, n) ∷ chunks) broken w b =
      resume_name (write p n w b).0 _ _ (write p n w b).2
        (copy_name chunks broken (write p n w b).1 (write p n w b).2)
      ∙ write_name p n w b

  copied_name :
      (r : Result (Unit {0}) × Writer × Bucket)
      → (put_copied env fails now name opts r).1.name ≡ r.2.name
  copied_name (err e, w, b) = abort_name w b
  copied_name (ok x, w, b) = commit_name w b

  started_name :
      (chunks : List (Bytes × ℕ)) (broken : Bool) (r : Result Writer × Bucket)
      → (put_started env fails now name chunks broken opts r).1.name ≡ r.1.name
  started_name chunks broken (err e, b) = refl
  started_name chunks broken (ok w, b) =
      copied_name (copy chunks broken w b) ∙ copy_name chunks broken w b

  pub put_object_name :
      (temp_name : Bytes) (chunks : List (Bytes × ℕ)) (broken : Bool) (b : Bucket)
      → (put_object env fails now temp_name name chunks broken opts b).1.name ≡ b.name
  unfolding put_object new_blob_writer
  put_object_name temp_name chunks broken b =
      started_name chunks broken (new_blob_writer fails temp_name b) ∙ ground arith
