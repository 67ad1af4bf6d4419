-- ===== src/S3/Multipart/Staged.antt =====
-- What a request of pkg/s3 that uploads a part stages.
use objectstorage.Prelude.{
  ℕ, ◌≤◌, subst, Option, none, some, [], length, ◌≡◌, refl, ap, ◌∙◌, arith, inl, inr, Bool-cases,
}
use objectstorage.Prelude.Bytes.{Bytes, codes, bytes_Eq, bytes_eq_iff}
use objectstorage.Prelude.Dict.{get, put, get-put}
use objectstorage.Prelude.Int.{ℤ, pos, negsuc}
use objectstorage.Store.Types.{call_failed, Result, ok, err}
use objectstorage.Store.Bucket.{FilePath, temp, path_Eq, Bucket, close}
use objectstorage.Store.Buckets.{
  Store, ready, directory, content, bucket as find, within, within_found,
}
use objectstorage.Store.Objects.{create_part, temp_file}
use objectstorage.Http.{Request, query_get}
use objectstorage.Http.Text.{atoi}
use objectstorage.S3.Chunked.{flatten}
use objectstorage.S3.Body.{Host, request_body, with_writes, object_resource}
use objectstorage.S3.Body.Reads.{concat-with_writes}
use objectstorage.S3.Xml.{Response, fixed, of_error, status_of, status_of-write_store_error}
use objectstorage.S3.Multipart.{
  ℤ_Eq, StagedPart, MultipartUpload, Server, edit_files, lookup_upload, copy_part, staged_file,
  attach_part, in_bounds, upload_found, part_number_of, part_staged, part_created, upload_numbered,
  upload_part, belongs, in_map,
}
use objectstorage.S3.Multipart.Served.{refusal}
use objectstorage.S3.Multipart.Files.{
  copy_part-ok, file_at, IsOther, file_at-put, file_at-remove_previous,
}

-- The numbers that are let through.
in_bounds-ok :
    (o : Option ℤ) (number : ℤ)
    → in_bounds o ≡ some number
    → (n : ℕ) × (1 ≤ n) × (n ≤ 10000) × (o ≡ some (pos n)) × (number ≡ pos n)
in_bounds-ok none number h = cc
in_bounds-ok (some (pos n)) number h =
    (n, ground (arith, h), ground (arith, h), refl, ground (arith, h))
in_bounds-ok (some (negsuc n)) number h = absurd (ground (arith, h))

module _ (host : Host) (bucket key id : Bytes) (number : ℤ) (up : MultipartUpload)
    (file : Bytes) where
  -- The part is staged, and it is the upload's part of that number.
  pub record IsAttached (made : Response × Server) : Type 0 where
    pub attached :
        get id made.1.uploads
        ≡ some (record up {
          parts =
              put number
                (record {
                  temp_name = host.temp_name;
                  size = length file;
                  md5 = host.env.md5_sum file;
                })
                up.parts;
        })
    pub on_disk : file_at bucket host.temp_name made.1.store ≡ some file

  attach_part-IsAttached :
      (s : Server)
      → IsOther host.temp_name (get number up.parts)
      → file_at bucket host.temp_name s.store ≡ some file
      → (part : StagedPart)
      → part
        ≡ record { temp_name = host.temp_name; size = length file; md5 = host.env.md5_sum file }
      → status_of (attach_part host bucket key id number part (some up) s).0 ≡ some 200
      → IsAttached (attach_part host bucket key id number part (some up) s)
  unfolding attach_part
  attach_part-IsAttached s fresh at part e q = elim (Bool-cases up.done) [
    | inl p ↦ absurd (
        refusal 404 (codes "NoSuchUpload") (fixed (codes "upload already completed"))
          (object_resource bucket key) (ground arith) (simp p at q))
    | inr p ↦
        simp (p, e)
          (record {
            attached = ground (
              arith,
              p,
              get-put id id (record up { parts = put number part up.parts }) s.uploads,
              bytes_eq_iff id id,
            );
            on_disk =
                file_at-remove_previous host bucket host.temp_name (get number up.parts) s.store
                  fresh
                ∙ at;
          })
  ]

  staged-IsAttached :
      (s : Server) (st : Store) (b : Bucket) (copied : Result (Unit {0}) × Bytes)
      → IsOther host.temp_name (get number up.parts)
      → content bucket st ≡ some b
      → get id s.uploads ≡ some up
      → (copied.0 ≡ ok tt → copied.1 ≡ file)
      → status_of (part_staged host bucket key id number s (staged_file host bucket copied st)).0
        ≡ some 200
      → IsAttached (part_staged host bucket key id number s (staged_file host bucket copied st))
  staged-IsAttached s st b (err e, c) fresh here at same q = absurd (
      refusal 500 (codes "InternalError") (of_error e) (object_resource bucket key) (ground arith)
        q)
  staged-IsAttached s st b (ok x, c) fresh here at same q = elim (Bool-cases (host.fails 0 close)) [
    | inl p ↦ absurd (
        refusal 500 (codes "InternalError") (of_error call_failed) (object_resource bucket key)
          (ground arith) (simp p at q))
    | inr p ↦
        let st' = edit_files bucket (put (temp host.temp_name) c) st in
        let whole = same refl in
        simp (p, at)
          (attach_part-IsAttached (record s { store = st' }) fresh
            (file_at-put bucket host.temp_name c st b here ∙ ap some whole)
            (record { temp_name = host.temp_name; size = length c; md5 = host.env.md5_sum c })
            (ap
              (λ f. record {
                temp_name = host.temp_name;
                size = length f;
                md5 = host.env.md5_sum f;
              })
              whole)
            (simp (p, at) at q))
  ]

created-content :
    (host : Host) (bucket : Bytes) (path : FilePath) (st : Store)
    → (temp_file (host.fails 0) host.now bucket host.temp_name st).0 ≡ ok path
    → (b : Bucket) × (content bucket (temp_file (host.fails 0) host.now bucket host.temp_name st).1
        ≡ some b)
unfolding temp_file within
created-content host bucket path st = split (find (host.fails 0) host.now bucket st)
  where
    split :
        (r : Result Bucket × Store)
        → (within_found bucket (create_part (host.fails 0) host.temp_name) r).0 ≡ ok path
        → (b : Bucket) × (content bucket
              (within_found bucket (create_part (host.fails 0) host.temp_name) r).1
            ≡ some b)
    split (err e, st') q = cc
    split (ok b, st') q =
        let b' = (create_part (host.fails 0) host.temp_name b).1 in
        (
          b',
          ground (
            arith,
            get-put bucket bucket (directory (ready b')) st'.entries,
            bytes_eq_iff bucket bucket,
          ),
        )

module _ (host : Host) (r : Request) (bucket key : Bytes) (s : Server) where
  abbrev pub body : Bytes
  body = flatten (request_body host r).0

  created-IsAttached :
      (id : Bytes) (number : ℤ) (up : MultipartUpload) (created : Result FilePath × Store)
      → IsOther host.temp_name (get number up.parts)
      → get id s.uploads ≡ some up
      → ((path : FilePath)
          → created.0 ≡ ok path
          → (b : Bucket) × (content bucket created.1 ≡ some b))
      → status_of (part_created host r bucket key id number s created).0 ≡ some 200
      → IsAttached host bucket key id number up body
          (part_created host r bucket key id number s created)
  created-IsAttached id number up (err e, st) fresh at here q =
      absurd (status_of-write_store_error e (object_resource bucket key) q)
  created-IsAttached id number up (ok path, st) fresh at here q =
      let (pieces, broken) = request_body host r in
      let (b, found) = here path refl in
      staged-IsAttached host bucket key id number up body s st b
        (copy_part (with_writes host.stored pieces) broken []) fresh found at
        (λ e.
          copy_part-ok (with_writes host.stored pieces) broken [] e
          ∙ concat-with_writes host.stored pieces)
        q

  numbered-IsAttached :
      (id : Bytes) (o : Option ℤ) (up : MultipartUpload)
      → ((n : ℤ) → IsOther host.temp_name (get n up.parts))
      → get id s.uploads ≡ some up
      → status_of (upload_numbered host r bucket key id o s).0 ≡ some 200
      → (number : ℤ) × (o ≡ some number)
        × IsAttached host bucket key id number up body (upload_numbered host r bucket key id o s)
  numbered-IsAttached id none up fresh at q = absurd (
      refusal 400 (codes "InvalidArgument") (fixed (codes "invalid partNumber"))
        (object_resource bucket key) (ground arith) q)
  numbered-IsAttached id (some n) up fresh at q = (
    n,
    refl,
    created-IsAttached id n up (temp_file (host.fails 0) host.now bucket host.temp_name s.store)
        (fresh n) at (λ path e. created-content host bucket path s.store e) q,
  )

  looked_up :
      (up : MultipartUpload)
      → lookup_upload r bucket key s ≡ some up
      → get (query_get (codes "uploadId") r) s.uploads ≡ some up
  unfolding lookup_upload
  looked_up up h =
      split (get (query_get (codes "uploadId") r) s.current)
        (get (query_get (codes "uploadId") r) s.uploads) h
    where
      split :
          (c : Option (Unit {0})) (o : Option MultipartUpload)
          → belongs bucket key (in_map c o) ≡ some up
          → o ≡ some up
      split none o q = cc
      split (some x) none q = cc
      split (some x) (some other) q = ground (arith, q)

  -- Whatever calls fail in a request that uploads a part and succeeds, where the temporary name is that
  -- of no part of the upload: the part number is a number from 1 to 10000, which the parameter
  -- `partNumber` is read as, the upload's part of that number is the staged file, with the size and the
  -- digest of the body, and the file holds the body.
  pub upload_part-IsAttached :
      (up : MultipartUpload)
      → lookup_upload r bucket key s ≡ some up
      → ((n : ℤ) → IsOther host.temp_name (get n up.parts))
      → status_of (upload_part host r bucket key s).0 ≡ some 200
      → (n : ℕ) × (1 ≤ n)
        × (n ≤ 10000)
        × (atoi (query_get (codes "partNumber") r) ≡ some (pos n))
        × IsAttached host bucket key
            (query_get (codes "uploadId") r)
            (pos n)
            up
            body
            (upload_part host r bucket key s)
  unfolding upload_part part_number_of
  upload_part-IsAttached up looked fresh q =
      let (number, read, attached) =
        numbered-IsAttached (query_get (codes "uploadId") r) (part_number_of r) up fresh
          (looked_up up looked) (simp looked at q) in
      let (n, least, most, parsed, same) =
        in_bounds-ok (atoi (query_get (codes "partNumber") r)) number read in
      (
        n,
        least,
        most,
        parsed,
        simp looked (
            subst
              (λ i.
                IsAttached host bucket key (query_get (codes "uploadId") r) i up body
                  (upload_found host r bucket key (some up) s))
              same attached),
      )
