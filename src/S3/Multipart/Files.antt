-- ===== src/S3/Multipart/Files.antt =====
-- The files of the parts of an upload: what is written to them, and which edits leave them.
use objectstorage.Prelude.{
  not, ◌&&◌, if◌then◌else◌, ℕ, Option, none, some, Bool, ltb, List, [], ◌∷◌, ◌++◌, length,
  append-nil, append_assoc, ◌≡◌, ◌≢◌, refl, sym, ◌∙◌, arith, inl, inr, Bool-cases,
}
use objectstorage.Prelude.Bytes.{Bytes, bytes_eq, bytes_Eq, bytes_eq_iff}
use objectstorage.Prelude.Dict.{get, put, get-put, get-remove}
use objectstorage.Store.Types.{ok}
use objectstorage.Store.Bucket.{temp, path_Eq, Bucket, discard, remove_temp}
use objectstorage.Store.Buckets.{Store, ready, directory, content}
use objectstorage.Store.Writer.Stream.{concat}
use objectstorage.S3.Body.{Host}
use objectstorage.S3.Multipart.{
  ℤ_Eq, StagedPart, edit_files, copy_part, remove_part, remove_previous,
}

-- A copy that succeeds has written every piece.
pub copy_part-ok :
    (chunks : List (Bytes × ℕ)) (broken : Bool) (file : Bytes)
    → (copy_part chunks broken file).0 ≡ ok tt
    → (copy_part chunks broken file).1 ≡ file ++ concat chunks
unfolding copy_part
copy_part-ok [] broken file h = sym (append-nil file)
copy_part-ok ((p, n) ∷ chunks) broken file h = elim (Bool-cases (ltb n (length p))) [
  | inl q ↦ absurd (ground (arith, q, h))
  | inr q ↦ rw q (
      copy_part-ok chunks broken (file ++ p) (ground (arith, q, h))
      ∙ append_assoc file p (concat chunks))
]

abbrev file_of : Bytes → Option Bucket → Option Bytes
file_of name none = none
file_of name (some b) = get (temp name) b.files

-- The temporary file of a bucket, `none` if it is not there.
abbrev pub file_at : Bytes → Bytes → Store → Option Bytes
file_at bucket name st = file_of name (content bucket st)

pub file_at-put :
    (bucket name file : Bytes) (st : Store) (b : Bucket)
    → content bucket st ≡ some b
    → file_at bucket name (edit_files bucket (put (temp name) file) st) ≡ some file
unfolding edit_files
file_at-put bucket name file st b here = simp here (
    ground (
      arith,
      get-put bucket bucket (directory (ready (record b { files = put (temp name) file b.files })))
          st.entries,
      get-put (temp name) (temp name) file b.files,
      bytes_eq_iff bucket bucket,
      bytes_eq_iff name name,
    ))

-- The file of a part that is removed is gone, unless the removal fails; every other file stays.
pub file_at-remove_part :
    (host : Host) (bucket name : Bytes) (part : StagedPart) (st : Store)
    → file_at bucket name (remove_part host bucket part st) ≡ (
        if bytes_eq part.temp_name name && not (host.fails 0 remove_temp)
        then none
        else file_at bucket name st)
unfolding remove_part edit_files
file_at-remove_part host bucket name part st = split (content bucket st) refl
  where
    split :
        (o : Option Bucket)
        → content bucket st ≡ o
        → file_at bucket name (remove_part host bucket part st) ≡ (
            if bytes_eq part.temp_name name && not (host.fails 0 remove_temp)
            then none
            else file_at bucket name st)
    split none e = simp e (ground arith)
    split (some b) e = simp e (
        ground (
          arith,
          get-put bucket bucket
              (directory (
                ready (record b {
                  files = discard (host.fails 0 remove_temp) (temp part.temp_name) b.files;
                })))
              st.entries,
          get-remove (temp part.temp_name) (temp name) b.files,
          bytes_eq_iff bucket bucket,
          bytes_eq_iff part.temp_name name,
        ))

abbrev pub IsOther : Bytes → Option StagedPart → Type 0
IsOther name none = Unit {0}
IsOther name (some part) = part.temp_name ≢ name

pub file_at-remove_previous :
    (host : Host) (bucket name : Bytes) (o : Option StagedPart) (st : Store)
    → IsOther name o
    → file_at bucket name (remove_previous host bucket o st) ≡ file_at bucket name st
file_at-remove_previous host bucket name none st d = refl
file_at-remove_previous host bucket name (some part) st d =
    file_at-remove_part host bucket name part st
    ∙ ground (arith, d, bytes_eq_iff part.temp_name name)
