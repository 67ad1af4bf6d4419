-- ===== src/S3/Multipart/ReadBack.antt =====
-- What a completion of pkg/s3 makes of the parts: an object with their contents, in order.
use objectstorage.Prelude.{some, List, [], ◌∷◌, ◌++◌, ◌≡◌, refl, sym, ap, ◌∙◌, arith, subst}
use objectstorage.Prelude.Bytes.{Bytes, bytes_Eq, bytes_eq_iff}
use objectstorage.Prelude.Dict.{Dict, put, get-put}
use objectstorage.Store.Types.{Result, ok, err, ObjectInfo, PutOptions}
use objectstorage.Store.Bucket.{FilePath, temp, path_Eq, Bucket, no_faults, open_object}
use objectstorage.Store.Bucket.Invariant.{IsConsistent}
use objectstorage.Store.Writer.{Writer, new_blob_writer, commit}
use objectstorage.Store.Writer.Put.{new_blob_writer-IsConsistent}
use objectstorage.Store.Writer.ReadBack.{RoundTrips, in_micros, open_object-commit}
use objectstorage.Store.Writer.Stream.{IsSynced, new_blob_writer-IsSynced}
use objectstorage.S3.Body.{Host}
use objectstorage.S3.Multipart.{StagedPart}
use objectstorage.S3.Multipart.Assembly.{staged_content, IsFresh, copy_parts-Assembled}
use objectstorage.S3.Multipart.Completed.{copy_parts-Keeps}
use objectstorage.S3.Multipart.Complete.{
  copy_parts, assembled, committed, parts_copied, parts_started, assemble,
}

committed-ok :
    (r : Result ObjectInfo) (found : ObjectInfo) → committed r ≡ ok (assembled found) → r ≡ ok found
committed-ok (err e) found h = absurd (ground (arith, h))
committed-ok (ok o) found h = ground (arith, h)

pub staged_content-put :
    (name file : Bytes) (parts : List StagedPart) (files : Dict FilePath Bytes)
    → IsFresh name parts
    → staged_content parts (put (temp name) file files) ≡ staged_content parts files
staged_content-put name file [] files f = refl
staged_content-put name file (part ∷ parts) files (d, f) = ground (
  arith,
  d,
  staged_content-put name file parts files f,
  get-put (temp name) (temp part.temp_name) file files,
  bytes_eq_iff name part.temp_name,
)

module _ (host : Host) (key : Bytes) (parts : List StagedPart) (opts : PutOptions)
    (found : ObjectInfo) (json : RoundTrips host.env opts)
    (injective : (x y : Bytes) → host.env.sha256_hex x ≡ host.env.sha256_hex y → x ≡ y) where
  -- What an assembly that succeeds has made.
  pub record IsAssembled (b b' : Bucket) : Type 0 where
    pub content : Bytes
    pub staged : staged_content parts b.files ≡ some content
    pub opened : open_object host.env no_faults key b' ≡ ok (in_micros found, content)

  copied-IsAssembled :
      (b : Bucket) (r : Result (Unit {0}) × Writer × Bucket)
      → (r.0 ≡ ok tt
          → (content : Bytes) × (staged_content parts b.files ≡ some content)
            × (r.1.sha ≡ content)
            × IsSynced r.1 r.2)
      → IsConsistent host.env r.2
      → (parts_copied host key opts r).0 ≡ ok (assembled found)
      → IsAssembled b (parts_copied host key opts r).1
  copied-IsAssembled b (err e, w, b') h k q = absurd (ground (arith, q))
  copied-IsAssembled b (ok x, w, b') h k q =
      let (content, staged, sha, synced) = h refl in
      let done = committed-ok (commit host.env (host.fails 0) host.now key opts w b').0 found q in
      record {
        content = content;
        staged = staged;
        opened =
            open_object-commit host.env (host.fails 0) host.now w key opts b' found done json
              injective synced k
            ∙ ap (λ c. ok (in_micros found, c)) sha;
      }

  started-IsAssembled :
      (b : Bucket) (r : Result Writer × Bucket)
      → IsFresh host.temp_name parts
      → ((w : Writer)
          → r.0 ≡ ok w
          → (w.sha ≡ [])
            × IsSynced w r.1
            × (w.temp_name ≡ host.temp_name)
            × (r.1.files ≡ put (temp host.temp_name) [] b.files))
      → IsConsistent host.env r.1
      → (parts_started host key parts opts r).0 ≡ ok (assembled found)
      → IsAssembled b (parts_started host key parts opts r).1
  started-IsAssembled b (err e, b') fresh h k q = cc
  started-IsAssembled b (ok w, b') fresh h k q =
      let (empty, synced, named, files) = h w refl in
      copied-IsAssembled b (copy_parts host parts w b')
        (λ e.
          let a =
            copy_parts-Assembled host parts w b' (subst (λ t. IsFresh t parts) (sym named) fresh)
              synced e in
          (
            a.content,
            sym (staged_content-put host.temp_name [] parts b.files fresh)
                ∙ ap (staged_content parts) (sym files)
                ∙ a.staged,
            a.streamed ∙ ap (λ s. s ++ a.content) empty,
            a.synced,
          ))
        (copy_parts-Keeps host key opts parts w b' k).0 q

  started-files :
      (b : Bucket) (w : Writer)
      → (new_blob_writer (host.fails 0) host.temp_name b).0 ≡ ok w
      → (w.temp_name ≡ host.temp_name)
        × ((new_blob_writer (host.fails 0) host.temp_name b).1.files
            ≡ put (temp host.temp_name) [] b.files)
  unfolding new_blob_writer
  started-files b w h = ground (arith, h)

  pub assemble-IsAssembled :
      (b : Bucket)
      → IsFresh host.temp_name parts
      → IsConsistent host.env b
      → (assemble host key parts opts b).0 ≡ ok (assembled found)
      → IsAssembled b (assemble host key parts opts b).1
  unfolding assemble
  assemble-IsAssembled b fresh k q =
      started-IsAssembled b (new_blob_writer (host.fails 0) host.temp_name b) fresh
        (λ w e.
          let (empty, synced) = new_blob_writer-IsSynced (host.fails 0) host.temp_name b w e in
          let (named, files) = started-files b w e in (empty, synced, named, files))
        (new_blob_writer-IsConsistent host.env (host.fails 0) host.temp_name b k) q
