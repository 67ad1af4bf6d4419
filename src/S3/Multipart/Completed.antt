-- ===== src/S3/Multipart/Completed.antt =====
-- What a completion of pkg/s3 does to the bucket, and to the store.
use objectstorage.Prelude.{
  ℕ, Option, none, some, Bool, true, false, not, if◌then◌else◌, List, [], ◌∷◌, length, ◌≡◌, refl,
  ◌∙◌, arith, inl, inr, Bool-cases,
}
use objectstorage.Prelude.Bytes.{Bytes, codes, bytes_Eq}
use objectstorage.Prelude.Dict.{get}
use objectstorage.Store.Types.{Env, Result, ok, err, PutOptions}
use objectstorage.Store.Bucket.{temp, path_Eq, Bucket}
use objectstorage.Store.Bucket.Invariant.{IsConsistent}
use objectstorage.Store.Buckets.{Store, within}
use objectstorage.Store.Buckets.Sound.{IsSound}
use objectstorage.Store.Buckets.Keeps.{within-IsSound}
use objectstorage.Store.Writer.{Writer, new_blob_writer}
use objectstorage.Store.Writer.Consistent.{commit-IsConsistent, abort-IsConsistent}
use objectstorage.Store.Writer.Put.{new_blob_writer-IsConsistent, copy-IsConsistent}
use objectstorage.Store.Writer.Named.{commit_name, abort_name, copy_name}
use objectstorage.Store.Writer.Stream.{IsSynced, new_blob_writer-IsSynced}
use objectstorage.Http.{Request, query_get}
use objectstorage.S3.Body.{Host}
use objectstorage.S3.Xml.{CompletedPart, Response}
use objectstorage.S3.Multipart.{StagedPart, MultipartUpload, Server, lookup_upload}
use objectstorage.S3.Multipart.Assembly.{copy_parts-IsSynced}
use objectstorage.S3.Multipart.Kept.{finish_upload-IsSound}
use objectstorage.S3.Multipart.Complete.{
  Checked, refused_part, found_parts, check_parts, copy_file, go_on, copy_parts, Assembly,
  not_copied, assembled, parts_copied, parts_started, assemble, upload_options, complete_assembled,
  complete_checked, complete_decoded, complete_found, complete_multipart_upload, is_sorted, is_nil,
}

-- What an operation on a bucket keeps.
abbrev pub Keeps : Env → Bucket → Bucket → Type 0
Keeps env b b' = IsConsistent env b → IsConsistent env b' × (b'.name ≡ b.name)

Keeps-trans : (env : Env) (a b c : Bucket) → Keeps env a b → Keeps env b c → Keeps env a c
Keeps-trans env a b c h k p = let (q, e) = h p in let (r, f) = k q in (r, f ∙ e)

module _ (host : Host) (key : Bytes) (opts : PutOptions) where
  copy_file-Keeps :
      (n : ℕ) (o : Option Bytes) (w : Writer) (b : Bucket)
      → Keeps host.env b (copy_file host n o w b).2
  copy_file-Keeps n none w b h = (h, refl)
  copy_file-Keeps n (some file) w b h = elim (Bool-cases (host.open_fails n)) [
    | inl p ↦ rw p (h, refl)
    | inr p ↦ rw p (
      copy-IsConsistent host.env _ (host.file_breaks n) w b h,
      copy_name host.env (host.fails 0) host.now key opts _ (host.file_breaks n) w b,
    )
  ]

  go_on-Keeps :
      (b : Bucket) (copied rest : Result (Unit {0}) × Writer × Bucket)
      → Keeps host.env b copied.2
      → Keeps host.env copied.2 rest.2
      → Keeps host.env b (go_on copied.0 rest copied.1 copied.2).2
  go_on-Keeps b (err e, w', b') rest h k = h
  go_on-Keeps b (ok x, w', b') rest h k = Keeps-trans host.env b b' rest.2 h k

  pub copy_parts-Keeps :
      (parts : List StagedPart) (w : Writer) (b : Bucket)
      → Keeps host.env b (copy_parts host parts w b).2
  unfolding copy_parts
  copy_parts-Keeps [] w b = λ h. (h, refl)
  copy_parts-Keeps (part ∷ parts) w b =
      let o = get (temp part.temp_name) b.files in
      let copied = copy_file host (length parts) o w b in
      go_on-Keeps b copied (copy_parts host parts copied.1 copied.2)
        (copy_file-Keeps (length parts) o w b) (copy_parts-Keeps parts copied.1 copied.2)

  new_blob_writer_name :
      (b : Bucket) → (new_blob_writer (host.fails 0) host.temp_name b).1.name ≡ b.name
  unfolding new_blob_writer
  new_blob_writer_name b = ground arith

  parts_copied-Keeps :
      (r : Result (Unit {0}) × Writer × Bucket)
      → (r.0 ≡ ok tt → IsSynced r.1 r.2)
      → Keeps host.env r.2 (parts_copied host key opts r).1
  parts_copied-Keeps (err e, w, b) synced h = (
    abort-IsConsistent host.env (host.fails 0) w b h,
    abort_name host.env (host.fails 0) host.now key opts w b,
  )
  parts_copied-Keeps (ok x, w, b) synced h = (
    commit-IsConsistent host.env (host.fails 0) host.now key opts w b (synced refl) h,
    commit_name host.env (host.fails 0) host.now key opts w b,
  )

  parts_started-Keeps :
      (parts : List StagedPart) (b : Bucket) (r : Result Writer × Bucket)
      → ((w : Writer) → r.0 ≡ ok w → IsSynced w r.1)
      → Keeps host.env b r.1
      → Keeps host.env b (parts_started host key parts opts r).1
  parts_started-Keeps parts b (err e, b') synced h = h
  parts_started-Keeps parts b (ok w, b') synced h = Keeps-trans host.env b b' _ h (
      Keeps-trans host.env b' _ _ (copy_parts-Keeps parts w b') (
        parts_copied-Keeps (copy_parts host parts w b')
          (copy_parts-IsSynced host parts w b' (synced w refl))))

  pub assemble-Keeps :
      (parts : List StagedPart) (b : Bucket)
      → IsConsistent host.env b
      → IsConsistent host.env (assemble host key parts opts b).1
        × ((assemble host key parts opts b).1.name ≡ b.name)
  unfolding assemble
  assemble-Keeps parts b =
      parts_started-Keeps parts b (new_blob_writer (host.fails 0) host.temp_name b)
        (λ w e. (new_blob_writer-IsSynced (host.fails 0) host.temp_name b w e).1)
        (λ h. (
          new_blob_writer-IsConsistent host.env (host.fails 0) host.temp_name b h,
          new_blob_writer_name b,
        ))

pub if-IsSound :
    (env : Env) (test : Bool) (x y : Response × Server)
    → IsSound env x.1.store
    → IsSound env y.1.store
    → IsSound env (if test then x else y).1.store
if-IsSound env true x y h k = h
if-IsSound env false x y h k = k

module _ (host : Host) (bucket key : Bytes) where
  complete_assembled-IsSound :
      (id : Bytes) (up : MultipartUpload) (s : Server) (made : Result Assembly × Store)
      → IsSound host.env made.1
      → IsSound host.env (complete_assembled host bucket key id up s made).1.store
  complete_assembled-IsSound id up s (err e, st) h = h
  complete_assembled-IsSound id up s (ok (not_copied e), st) h = h
  complete_assembled-IsSound id up s (ok (assembled info), st) h =
      finish_upload-IsSound host id up (record s { store = st }) h

  complete_checked-IsSound :
      (id : Bytes) (up : MultipartUpload) (s : Server) (checked : Checked)
      → IsSound host.env s.store
      → IsSound host.env (complete_checked host bucket key id up s checked).1.store
  complete_checked-IsSound id up s (refused_part m) h = h
  complete_checked-IsSound id up s (found_parts parts) h =
      let op : Bucket → Result Assembly × Bucket = assemble host key parts (upload_options up) in
      complete_assembled-IsSound id up s (within (host.fails 0) host.now bucket op s.store) (
        within-IsSound host.env (host.fails 0) host.now bucket op
          (λ b k. assemble-Keeps host key (upload_options up) parts b k) s.store h)

  complete_decoded-IsSound :
      (id : Bytes) (up : MultipartUpload) (s : Server) (o : Option (List CompletedPart))
      → IsSound host.env s.store
      → IsSound host.env (complete_decoded host bucket key id up s o).1.store
  complete_decoded-IsSound id up s none h = h
  complete_decoded-IsSound id up s (some parts) h = if-IsSound host.env (is_nil parts) _ _ h (
      if-IsSound host.env (not (is_sorted parts)) _ _ h (
        if-IsSound host.env up.done _ _ h
          (complete_checked-IsSound id up s (check_parts up.parts parts) h)))

  complete_found-IsSound :
      (r : Request) (o : Option MultipartUpload) (s : Server)
      → IsSound host.env s.store
      → IsSound host.env (complete_found host r bucket key o s).1.store
  complete_found-IsSound r none s h = h
  complete_found-IsSound r (some up) s h =
      complete_decoded-IsSound (query_get (codes "uploadId") r) up s
        (host.decode_complete r.body r.broken) h

  pub complete_multipart_upload-IsSound :
      (r : Request) (s : Server)
      → IsSound host.env s.store
      → IsSound host.env (complete_multipart_upload host r bucket key s).1.store
  unfolding complete_multipart_upload
  complete_multipart_upload-IsSound r s h =
      complete_found-IsSound r (lookup_upload r bucket key s) s h
