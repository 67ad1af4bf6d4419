-- ===== src/Gcs/Upload/Commit.antt =====
-- The commit of an upload: checksums, and what a refusal leaves.
use objectstorage.Prelude.{
  ℕ, Option, none, some, Bool, true, false, not, ◌&&◌, if◌then◌else◌, [], length, ◌≡◌, ◌≢◌, refl,
  arith,
}
use objectstorage.Prelude.Bytes.{Bytes, bytes_eq, bytes_eq_iff}
use objectstorage.Store.Types.{Error, Result, ok, err, Env, ObjectInfo, Conditions, PutOptions}
use objectstorage.Store.Bucket.{Bucket, Faults}
use objectstorage.Store.Bucket.Invariant.{IsConsistent}
use objectstorage.Store.Writer.{Writer, checksums, abort, commit}
use objectstorage.Store.Writer.Stream.{IsSynced}
use objectstorage.Store.Writer.Consistent.{commit-IsConsistent, abort-IsConsistent}
use objectstorage.Store.Writer.Effects.{commit-err, commit-IsPut}
use objectstorage.Gcs.Upload.{
  ObjectMetadata, Reply, complete, incomplete, refused, big_endian, decoded_md5, decoded_crc,
  answer, bad_request, commit_upload,
}

abbrev pub options : ObjectMetadata → Conditions → PutOptions
options meta conds = record {
  content_type = meta.content_type;
  metadata = meta.metadata;
  conditions = conds;
}

-- The checksums that the client has supplied are those of the object.
pub record IsChecked (decode : Bytes → Option Bytes) (meta : ObjectMetadata) (found : ObjectInfo)
    : Type 0 where
  pub md5 : meta.md5_hash ≢ [] → decode meta.md5_hash ≡ some found.md5
  pub crc :
      meta.crc32c ≢ []
      → (want : Bytes) × (decode meta.crc32c ≡ some want)
        × (length want ≡ 4)
        × (big_endian 0 want ≡ found.crc32c)

decoded_md5-some : (sum : Bytes) (o : Option Bytes) → decoded_md5 sum o ≡ true → o ≡ some sum
decoded_md5-some sum none h = cc
decoded_md5-some sum (some want) h = ground (arith, h, bytes_eq_iff want sum)

decoded_crc-some :
    (sum : ℕ) (o : Option Bytes)
    → decoded_crc sum o ≡ true
    → (want : Bytes) × (o ≡ some want) × (length want ≡ 4) × (big_endian 0 want ≡ sum)
decoded_crc-some sum none h = cc
decoded_crc-some sum (some want) h = (want, refl, ground (arith, h), ground (arith, h))

module _ (env : Env) (decode : Bytes → Option Bytes) (fails : Faults) (now : ℕ)
    (meta : ObjectMetadata) (conds : Conditions) (w : Writer) (b : Bucket) where
  -- Whatever calls fail, an upload whose writer is open and follows its file keeps a consistent bucket
  -- consistent, whether it is committed or refused.
  pub commit_upload-IsConsistent :
      IsSynced w b
      → IsConsistent env b
      → IsConsistent env (commit_upload env decode fails now meta conds w b).2
  unfolding commit_upload checksums
  commit_upload-IsConsistent synced h = if-keeps (bytes_eq meta.name []) _ (
      if-keeps
        (not (bytes_eq meta.md5_hash [])
          && not (decoded_md5 (env.md5_sum w.md5h) (decode meta.md5_hash)))
        _
        (if-keeps
          (not (bytes_eq meta.crc32c [])
            && not (decoded_crc (env.crc32c_sum w.crc) (decode meta.crc32c)))
          _
          (answered _
            (commit-IsConsistent env fails now meta.name (options meta conds) w b synced h))))
    where
      if-keeps :
          (test : Bool) (r : Reply × Writer × Bucket)
          → IsConsistent env r.2
          → IsConsistent env (if test then bad_request (abort fails w b) else r).2
      if-keeps true r k = abort-IsConsistent env fails w b h
      if-keeps false r k = k

      answered :
          (r : Result ObjectInfo × Writer × Bucket)
          → IsConsistent env r.2
          → IsConsistent env (answer r).2
      answered (ok found, w', b') k = k
      answered (err e, w', b') k = k

  reply_tables :
      (r : Result ObjectInfo × Writer × Bucket) (status : ℕ)
      → ((e : Error) → r.0 ≡ err e → r.2.tables ≡ b.tables)
      → (answer r).0 ≡ refused status
      → (answer r).2.tables ≡ b.tables
  reply_tables (ok found, w', b') status k q = cc
  reply_tables (err e, w', b') status k q = k e refl

  -- An upload that is refused, for whatever reason, has left the tables of the bucket as they were.
  pub commit_upload-refused :
      (status : ℕ)
      → (commit_upload env decode fails now meta conds w b).0 ≡ refused status
      → (commit_upload env decode fails now meta conds w b).2.tables ≡ b.tables
  unfolding commit_upload checksums abort
  commit_upload-refused status q = ground (
    arith,
    q,
    reply_tables (commit env fails now meta.name (options meta conds) w b) status
        (λ e. commit-err env fails now w meta.name (options meta conds) b e),
  )

  answer_ok :
      (r : Result ObjectInfo × Writer × Bucket) (found : ObjectInfo)
      → (answer r).0 ≡ complete found
      → r.0 ≡ ok found
  answer_ok (ok x, w', b') found q = cc
  answer_ok (err e, w', b') found q = cc

  answer_progress :
      (r : Result ObjectInfo × Writer × Bucket) (progress : ℕ) → (answer r).0 ≢ incomplete progress
  answer_progress (ok x, w', b') progress = ground arith
  answer_progress (err e, w', b') progress = ground arith

  pub commit_upload-ne-incomplete :
      (progress : ℕ) → (commit_upload env decode fails now meta conds w b).0 ≢ incomplete progress
  unfolding commit_upload checksums
  commit_upload-ne-incomplete progress =
      ground
        (arith, answer_progress (commit env fails now meta.name (options meta conds) w b) progress)

  -- An upload that is answered with an object has the checksums that its client has supplied.
  pub commit_upload-IsChecked :
      (found : ObjectInfo)
      → (commit_upload env decode fails now meta conds w b).0 ≡ complete found
      → IsChecked decode meta found
  unfolding commit_upload checksums
  commit_upload-IsChecked found q =
      let committed : (commit env fails now meta.name (options meta conds) w b).0 ≡ ok found =
        answer_ok (commit env fails now meta.name (options meta conds) w b) found
          (ground (arith, q)) in
      let put = commit-IsPut env fails now w meta.name (options meta conds) b found committed in
      record {
        md5 = λ n. ground (
          arith,
          q,
          n,
          put.info,
          bytes_eq_iff meta.md5_hash [],
          decoded_md5-some (env.md5_sum w.md5h) (decode meta.md5_hash),
        );
        crc = λ n.
            let (want, at, four, sum) =
              decoded_crc-some (env.crc32c_sum w.crc) (decode meta.crc32c)
                (ground (arith, q, n, bytes_eq_iff meta.crc32c [])) in
            (want, at, four, ground (arith, sum, put.info));
      }
