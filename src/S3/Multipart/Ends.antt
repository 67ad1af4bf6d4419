-- ===== src/S3/Multipart/Ends.antt =====
-- How an upload of pkg/s3 ends, and what it does not survive.
use objectstorage.Prelude.{
  Option, none, some, Bool, true, false, not, ◌&&◌, if◌then◌else◌, List, [], ◌≡◌, ◌≢◌, refl, arith,
}
use objectstorage.Prelude.Bytes.{Bytes, codes, bytes_eq, bytes_Eq, bytes_eq_iff}
use objectstorage.Prelude.Dict.{get, get-put, get-remove}
use objectstorage.Prelude.Int.{ℤ}
use objectstorage.Store.Types.{Result, ok, err}
use objectstorage.Store.Bucket.{remove_temp}
use objectstorage.Store.Buckets.{Store, within}
use objectstorage.Http.{Request, query_get}
use objectstorage.S3.Body.{Host}
use objectstorage.S3.Xml.{Response, CompletedPart, write_s3_error, write_xml, status_of}
use objectstorage.S3.Multipart.{
  ℤ_Eq, StagedPart, MultipartUpload, Server, lookup_upload, attach_part, finish_upload, abort_found,
  abort_multipart_upload,
}
use objectstorage.S3.Multipart.Files.{file_at, file_at-remove_part}
use objectstorage.S3.Multipart.Complete.{
  Checked, refused_part, found_parts, check_parts, Assembly, not_copied, assembled, assemble,
  upload_options, complete_assembled, complete_checked, complete_decoded, complete_found,
  complete_multipart_upload, is_sorted, is_nil,
}

module _ (host : Host) (bucket key : Bytes) (s : Server) where
  -- An upload that has been finished is not found any more, under whatever bucket and key.
  lookup_upload-finish_upload :
      (r : Request) (up : MultipartUpload) (other_bucket other_key : Bytes)
      → lookup_upload r other_bucket other_key
          (finish_upload host (query_get (codes "uploadId") r) up s)
        ≡ none
  unfolding lookup_upload finish_upload
  lookup_upload-finish_upload r up other_bucket other_key =
      let id = query_get (codes "uploadId") r in
      ground (arith, get-remove id id s.current, bytes_eq_iff id id)

  abort_found-ends :
      (r : Request) (o : Option MultipartUpload)
      → lookup_upload r bucket key s ≡ o
      → lookup_upload r bucket key
          (abort_found host bucket key (query_get (codes "uploadId") r) o s).1
        ≡ none
  abort_found-ends r none e = e
  abort_found-ends r (some up) e = lookup_upload-finish_upload r up bucket key

  -- Whether an abort finds its upload or not, and whatever calls fail in it: no request with its
  -- identifier, bucket and key finds an upload afterwards.
  pub lookup_upload-abort_multipart_upload :
      (r : Request)
      → lookup_upload r bucket key (abort_multipart_upload host r bucket key s).1 ≡ none
  unfolding abort_multipart_upload
  lookup_upload-abort_multipart_upload r = abort_found-ends r (lookup_upload r bucket key s) refl

  -- A part that was staged for an upload that has been completed or aborted in the meantime is not
  -- attached: it is answered with status 404, and the uploads stay as they are. Of the staged files of
  -- the bucket, that of the part is gone, unless its removal fails, and every other is as it was.
  pub attach_part-finish_upload :
      (late : Host) (id : Bytes) (up : MultipartUpload) (number : ℤ) (part : StagedPart)
      (name : Bytes)
      → let ended = finish_upload host id up s in
        let made = attach_part late bucket key id number part (get id ended.uploads) ended in
        (status_of made.0 ≡ some 404)
        × (made.1.uploads ≡ ended.uploads)
        × (made.1.current ≡ ended.current)
        × (file_at bucket name made.1.store ≡ (
            if bytes_eq part.temp_name name && not (late.fails 0 remove_temp)
            then none
            else file_at bucket name ended.store))
  unfolding attach_part finish_upload write_s3_error write_xml
  attach_part-finish_upload late id up number part name =
      let ended = finish_upload host id up s in
      let same : get id ended.uploads ≡ some (record up { parts = []; done = true }) = ground (
        arith,
        get-put id id (record up { parts = []; done = true }) s.uploads,
        bytes_eq_iff id id,
      ) in
      simp same (refl, refl, refl, file_at-remove_part late bucket name part ended.store)

  -- What a completion that does not succeed leaves of the uploads: all.
  Untouched : Response × Server → Type 0
  Untouched made =
      (status_of made.0 ≢ some 200) → (made.1.uploads ≡ s.uploads) × (made.1.current ≡ s.current)

  assembled-Untouched :
      (id : Bytes) (up : MultipartUpload) (made : Result Assembly × Store)
      → Untouched (complete_assembled host bucket key id up s made)
  unfolding Untouched write_xml
  assembled-Untouched id up (err e, st) h = (refl, refl)
  assembled-Untouched id up (ok (not_copied e), st) h = (refl, refl)
  assembled-Untouched id up (ok (assembled info), st) h = absurd (h refl)

  checked-Untouched :
      (id : Bytes) (up : MultipartUpload) (checked : Checked)
      → Untouched (complete_checked host bucket key id up s checked)
  unfolding Untouched
  checked-Untouched id up (refused_part m) h = (refl, refl)
  checked-Untouched id up (found_parts parts) h =
      assembled-Untouched id up
        (within (host.fails 0) host.now bucket (assemble host key parts (upload_options up))
          s.store)
        h

  if-Untouched :
      (test : Bool) (response : Response) (y : Response × Server)
      → Untouched y
      → Untouched (if test then (response, s) else y)
  unfolding Untouched
  if-Untouched true response y k h = (refl, refl)
  if-Untouched false response y k h = k h

  decoded-Untouched :
      (id : Bytes) (up : MultipartUpload) (o : Option (List CompletedPart))
      → Untouched (complete_decoded host bucket key id up s o)
  decoded-Untouched id up none = unfold Untouched in λ h. (refl, refl)
  decoded-Untouched id up (some parts) = if-Untouched (is_nil parts) _ _ (
      if-Untouched (not (is_sorted parts)) _ _
        (if-Untouched up.done _ _ (checked-Untouched id up (check_parts up.parts parts))))

  found-Untouched :
      (r : Request) (o : Option MultipartUpload) → Untouched (complete_found host r bucket key o s)
  found-Untouched r none = unfold Untouched in λ h. (refl, refl)
  found-Untouched r (some up) =
      decoded-Untouched (query_get (codes "uploadId") r) up (host.decode_complete r.body r.broken)

  -- A completion that is not answered with status 200, for whatever reason, leaves every upload as it was,
  -- so that it can be sent again.
  pub complete_multipart_upload-refused :
      (r : Request)
      → status_of (complete_multipart_upload host r bucket key s).0 ≢ some 200
      → ((complete_multipart_upload host r bucket key s).1.uploads ≡ s.uploads)
        × ((complete_multipart_upload host r bucket key s).1.current ≡ s.current)
  unfolding complete_multipart_upload Untouched
  complete_multipart_upload-refused r = found-Untouched r (lookup_upload r bucket key s)
