-- ===== src/S3/Multipart/Kept.antt =====
-- The handlers of pkg/s3/multipart.go keep the store sound.
use objectstorage.Prelude.{
  Option, none, some, Bool, [], ◌∷◌, ◌≡◌, refl, subst, inl, inr, Bool-cases,
}
use objectstorage.Prelude.Bytes.{Bytes, codes, bytes_Eq}
use objectstorage.Prelude.Dict.{Dict, get, put}
use objectstorage.Prelude.Int.{ℤ}
use objectstorage.Store.Types.{Env, Result, ok, err, BucketInfo}
use objectstorage.Store.Bucket.{FilePath, temp, path_Eq, Bucket, remove_temp, close, discard}
use objectstorage.Store.Bucket.Invariant.{IsConsistent}
use objectstorage.Store.Buckets.{Store, ready, directory, content}
use objectstorage.Store.Buckets.Sound.{IsWhole, IsSound, put-IsSound}
use objectstorage.Store.Buckets.Keeps.{get_bucket-IsSound}
use objectstorage.Store.Objects.Kept.{temp_file-IsSound}
use objectstorage.Store.Writer.Consistent.{discard_temp-IsConsistent}
use objectstorage.Store.Writer.Put.{temp-IsConsistent}
use objectstorage.Http.{Request, query_get}
use objectstorage.S3.Body.{Host, request_body, with_writes}
use objectstorage.S3.Multipart.{
  ℤ_Eq, StagedPart, MultipartUpload, Server, edit_files, remove_part, remove_parts, initiated,
  initiate_multipart_upload, copy_part, staged_file, remove_previous, attach_part, part_staged,
  part_created, upload_numbered, upload_found, upload_part, finish_upload, abort_found,
  abort_multipart_upload, lookup_upload, part_number_of,
}

module _ (env : Env) where
  -- A change to the files that leaves every consistent bucket consistent.
  pub edit_files-IsSound :
      (bucket : Bytes) (f : Dict FilePath Bytes → Dict FilePath Bytes) (st : Store)
      → ((b : Bucket) → IsConsistent env b → IsConsistent env (record b { files = f b.files }))
      → IsSound env st
      → IsSound env (edit_files bucket f st)
  unfolding edit_files
  edit_files-IsSound bucket f st keeps h = split (content bucket st) refl
    where
      split : (o : Option Bucket) → content bucket st ≡ o → IsSound env (edit_files bucket f st)
      split none e = simp e h
      split (some b) e =
          let (whole, named) = subst (λ o. IsWhole env bucket o) e (h.whole bucket) in
          simp e (
            put-IsSound env bucket st h (directory (ready (record b { files = f b.files })))
              st.handles (keeps b whole, named) (λ other n o. o)
              (λ o. ((h.handles bucket o).0, refl)))

module _ (host : Host) where
  put_temp-IsSound :
      (bucket name file : Bytes) (st : Store)
      → IsSound host.env st
      → IsSound host.env (edit_files bucket (put (temp name) file) st)
  put_temp-IsSound bucket name file st h =
      edit_files-IsSound host.env bucket (put (temp name) file) st
        (λ b k. temp-IsConsistent host.env name file b k) h

  discard_temp-IsSound :
      (bucket name : Bytes) (failed : Bool) (st : Store)
      → IsSound host.env st
      → IsSound host.env (edit_files bucket (discard failed (temp name)) st)
  discard_temp-IsSound bucket name failed st h =
      edit_files-IsSound host.env bucket (discard failed (temp name)) st
        (λ b k. discard_temp-IsConsistent host.env failed name b k) h

  remove_part-IsSound :
      (bucket : Bytes) (part : StagedPart) (st : Store)
      → IsSound host.env st
      → IsSound host.env (remove_part host bucket part st)
  unfolding remove_part
  remove_part-IsSound bucket part st h =
      discard_temp-IsSound bucket part.temp_name (host.fails 0 remove_temp) st h

  remove_parts-IsSound :
      (bucket : Bytes) (parts : Dict ℤ StagedPart) (st : Store)
      → IsSound host.env st
      → IsSound host.env (remove_parts host bucket parts st)
  unfolding remove_parts
  remove_parts-IsSound bucket [] st h = h
  remove_parts-IsSound bucket ((number, part) ∷ parts) st h =
      remove_parts-IsSound bucket parts _ (remove_part-IsSound bucket part st h)

  pub finish_upload-IsSound :
      (id : Bytes) (up : MultipartUpload) (s : Server)
      → IsSound host.env s.store
      → IsSound host.env (finish_upload host id up s).store
  unfolding finish_upload
  finish_upload-IsSound id up s h = remove_parts-IsSound up.bucket up.parts s.store h

  module _ (bucket key : Bytes) where
    initiated-IsSound :
        (r : Request) (s : Server) (found : Result BucketInfo × Store)
        → IsSound host.env found.1
        → IsSound host.env (initiated host r bucket key s found).1.store
    initiated-IsSound r s (err e, st) h = h
    initiated-IsSound r s (ok info, st) h = h

    pub initiate_multipart_upload-IsSound :
        (r : Request) (s : Server)
        → IsSound host.env s.store
        → IsSound host.env (initiate_multipart_upload host r bucket key s).1.store
    unfolding initiate_multipart_upload
    initiate_multipart_upload-IsSound r s h =
        initiated-IsSound r s _
          (get_bucket-IsSound host.env (host.fails 0) host.now bucket s.store h)

    staged_file-IsSound :
        (copied : Result (Unit {0}) × Bytes) (st : Store)
        → IsSound host.env st
        → IsSound host.env (staged_file host bucket copied st).1
    staged_file-IsSound (err e, file) st h =
        discard_temp-IsSound bucket host.temp_name (host.fails 0 remove_temp) _
          (put_temp-IsSound bucket host.temp_name file st h)
    staged_file-IsSound (ok x, file) st h =
        let k = put_temp-IsSound bucket host.temp_name file st h in
        elim (Bool-cases (host.fails 0 close)) [
          | inl p ↦ rw p (discard_temp-IsSound bucket host.temp_name (host.fails 0 remove_temp) _ k)
          | inr p ↦ rw p k
        ]

    remove_previous-IsSound :
        (o : Option StagedPart) (st : Store)
        → IsSound host.env st
        → IsSound host.env (remove_previous host bucket o st)
    remove_previous-IsSound none st h = h
    remove_previous-IsSound (some part) st h = remove_part-IsSound bucket part st h

    module _ (id : Bytes) (number : ℤ) where
      pub attach_part-IsSound :
          (part : StagedPart) (o : Option MultipartUpload) (s : Server)
          → IsSound host.env s.store
          → IsSound host.env (attach_part host bucket key id number part o s).1.store
      unfolding attach_part
      attach_part-IsSound part none s h = h
      attach_part-IsSound part (some up) s h = elim (Bool-cases up.done) [
        | inl p ↦ simp p (remove_part-IsSound bucket part s.store h)
        | inr p ↦ simp p (remove_previous-IsSound (get number up.parts) s.store h)
      ]

      part_staged-IsSound :
          (s : Server) (staged : Result StagedPart × Store)
          → IsSound host.env staged.1
          → IsSound host.env (part_staged host bucket key id number s staged).1.store
      part_staged-IsSound s (err e, st) h = h
      part_staged-IsSound s (ok part, st) h =
          attach_part-IsSound part (get id s.uploads) (record s { store = st }) h

      part_created-IsSound :
          (r : Request) (s : Server) (created : Result FilePath × Store)
          → IsSound host.env created.1
          → IsSound host.env (part_created host r bucket key id number s created).1.store
      part_created-IsSound r s (err e, st) h = h
      part_created-IsSound r s (ok path, st) h =
          let (pieces, broken) = request_body host r in
          let copied = copy_part (with_writes host.stored pieces) broken [] in
          part_staged-IsSound s (staged_file host bucket copied st)
            (staged_file-IsSound copied st h)

    upload_numbered-IsSound :
        (r : Request) (id : Bytes) (o : Option ℤ) (s : Server)
        → IsSound host.env s.store
        → IsSound host.env (upload_numbered host r bucket key id o s).1.store
    upload_numbered-IsSound r id none s h = h
    upload_numbered-IsSound r id (some number) s h =
        part_created-IsSound id number r s _
          (temp_file-IsSound host.env (host.fails 0) host.now bucket s.store h host.temp_name)

    upload_found-IsSound :
        (r : Request) (o : Option MultipartUpload) (s : Server)
        → IsSound host.env s.store
        → IsSound host.env (upload_found host r bucket key o s).1.store
    upload_found-IsSound r none s h = h
    upload_found-IsSound r (some up) s h =
        upload_numbered-IsSound r (query_get (codes "uploadId") r) (part_number_of r) s h

    pub upload_part-IsSound :
        (r : Request) (s : Server)
        → IsSound host.env s.store
        → IsSound host.env (upload_part host r bucket key s).1.store
    unfolding upload_part
    upload_part-IsSound r s h = upload_found-IsSound r (lookup_upload r bucket key s) s h

    abort_found-IsSound :
        (id : Bytes) (o : Option MultipartUpload) (s : Server)
        → IsSound host.env s.store
        → IsSound host.env (abort_found host bucket key id o s).1.store
    abort_found-IsSound id none s h = h
    abort_found-IsSound id (some up) s h = finish_upload-IsSound id up s h

    pub abort_multipart_upload-IsSound :
        (r : Request) (s : Server)
        → IsSound host.env s.store
        → IsSound host.env (abort_multipart_upload host r bucket key s).1.store
    unfolding abort_multipart_upload
    abort_multipart_upload-IsSound r s h =
        abort_found-IsSound (query_get (codes "uploadId") r) (lookup_upload r bucket key s) s h
