-- ===== src/Gcs/Upload.antt =====
-- pkg/gcs/upload.go: `commitUpload`, `putObject` and the chunks of a resumable upload. The bucket of a
-- session is the argument `b`; the header Content-Range is what its two regular expressions read.
pub mod Commit
pub mod Resume
pub mod Broken
use objectstorage.Prelude.{
  ℕ, ◌+◌, ◌-◌, ◌*◌, Option, none, some, Bool, true, false, not, ◌&&◌, if◌then◌else◌, ◌==◌, List, [],
  ◌∷◌, length,
}
use objectstorage.Prelude.Bytes.{Bytes, bytes_eq}
use objectstorage.Store.Types.{
  Error, bucket_not_found, bucket_exists, bucket_not_empty, object_not_found, precondition_failed,
  invalid_name, call_failed, finished, corrupt_metadata, panicked, Result, ok, err, Metadata, Env,
  ObjectInfo, Conditions,
}
use objectstorage.Store.Bucket.{Bucket, Faults}
use objectstorage.Store.Writer.{Writer, new_blob_writer, checksums, abort, commit}
use objectstorage.Store.Writer.Copy.{copy}

pub record ObjectMetadata : Type 0 where
  pub name : Bytes
  pub content_type : Bytes
  pub metadata : Metadata
  pub md5_hash : Bytes
  pub crc32c : Bytes

-- What is answered: an object resource, progress up to an offset, or an error with its status.
pub data Reply : Type 0 where
  complete : ObjectInfo → Reply
  incomplete : ℕ → Reply
  refused : ℕ → Reply

-- `binary.BigEndian.Uint32` of four bytes
abbrev pub big_endian : ℕ → Bytes → ℕ
big_endian sum [] = sum
big_endian sum (c ∷ s) = big_endian (sum * 256 + c) s

abbrev pub decoded_md5 : Bytes → Option Bytes → Bool
decoded_md5 sum none = false
decoded_md5 sum (some want) = bytes_eq want sum

abbrev pub decoded_crc : ℕ → Option Bytes → Bool
decoded_crc sum none = false
decoded_crc sum (some want) = (length want == 4) && (big_endian 0 want == sum)

-- `writeStoreError`
abbrev pub status_of : Error → ℕ
status_of bucket_not_found = 404
status_of object_not_found = 404
status_of bucket_exists = 409
status_of bucket_not_empty = 409
status_of precondition_failed = 412
status_of invalid_name = 400
status_of call_failed = 500
status_of finished = 500
status_of corrupt_metadata = 500
status_of panicked = 500

abbrev pub answer : Result ObjectInfo × Writer × Bucket → Reply × Writer × Bucket
answer (ok found, w, b) = (complete found, w, b)
answer (err e, w, b) = (refused (status_of e), w, b)

abbrev pub bad_request : Writer × Bucket → Reply × Writer × Bucket
bad_request (w, b) = (refused 400, w, b)

-- `decode` is the standard library's decoding of base64.
unfoldable pub commit_upload :
    Env
    → (Bytes → Option Bytes)
    → Faults
    → ℕ
    → ObjectMetadata
    → Conditions
    → Writer
    → Bucket
    → Reply × Writer × Bucket
commit_upload env decode fails now meta conds w b =
    let (sha, md5_sum, crc) = checksums env w in
    if bytes_eq meta.name []
    then bad_request (abort fails w b)
    else if not (bytes_eq meta.md5_hash []) && not (decoded_md5 md5_sum (decode meta.md5_hash))
    then bad_request (abort fails w b)
    else if not (bytes_eq meta.crc32c []) && not (decoded_crc crc (decode meta.crc32c))
    then bad_request (abort fails w b)
    else answer (
        commit env fails now meta.name
          (record {
            content_type = meta.content_type;
            metadata = meta.metadata;
            conditions = conds;
          })
          w b)

-- What follows `io.Copy` of the media.
abbrev pub media_copied :
    Env
    → (Bytes → Option Bytes)
    → Faults
    → ℕ
    → ObjectMetadata
    → Conditions
    → Result (Unit {0}) × Writer × Bucket
    → Reply × Bucket
media_copied env decode fails now meta conds (err e, w, b) = (refused 400, (abort fails w b).1)
media_copied env decode fails now meta conds (ok _, w, b) =
    let (reply, w', b') = commit_upload env decode fails now meta conds w b in (reply, b')

abbrev pub media_started :
    Env
    → (Bytes → Option Bytes)
    → Faults
    → ℕ
    → List (Bytes × ℕ)
    → Bool
    → ObjectMetadata
    → Conditions
    → Result Writer × Bucket
    → Reply × Bucket
media_started env decode fails now chunks broken meta conds (err e, b) = (refused (status_of e), b)
media_started env decode fails now chunks broken meta conds (ok w, b) =
    media_copied env decode fails now meta conds (copy chunks broken w b)

-- `putObject`, in the bucket that `NewBlobWriter` has found.
unfoldable pub put_media :
    Env
    → (Bytes → Option Bytes)
    → Faults
    → ℕ
    → Bytes
    → List (Bytes × ℕ)
    → Bool
    → ObjectMetadata
    → Conditions
    → Bucket
    → Reply × Bucket
put_media env decode fails now temp_name chunks broken meta conds b =
    media_started env decode fails now chunks broken meta conds (new_blob_writer fails temp_name b)

-- An upload session, without its bucket's name.
pub record Session : Type 0 where
  pub meta : ObjectMetadata
  pub conds : Conditions
  pub bw : Writer
  pub offset : ℕ
  pub done : Bool

-- `bytes */total`, `bytes start-end/total`, no header at all, or another.
pub data ContentRange : Type 0 where
  probe : Option ℕ → ContentRange
  chunk : ℕ → ℕ → Option ℕ → ContentRange
  whole malformed : ContentRange

abbrev pub is_total : Option ℕ → ℕ → Bool
is_total none offset = false
is_total (some total) offset = offset == total

abbrev pub finalized : Session → Reply × Writer × Bucket → Reply × Session × Bucket
finalized sess (reply, w, b) = (reply, record sess { bw = w; done = true }, b)

-- What follows the chunk: the commit if all has come, and the progress if not.
abbrev pub conclude :
    Env
    → (Bytes → Option Bytes)
    → Faults
    → ℕ
    → Option ℕ
    → Session
    → Bucket
    → Reply × Session × Bucket
conclude env decode fails now total sess b =
    if is_total total sess.offset
    then finalized sess (commit_upload env decode fails now sess.meta sess.conds sess.bw b)
    else (incomplete sess.offset, sess, b)

-- What follows `io.Copy` of a chunk: `n` bytes have been written.
abbrev pub chunk_copied :
    Env
    → (Bytes → Option Bytes)
    → Faults
    → ℕ
    → ℕ
    → ℕ
    → Option ℕ
    → Session
    → Result (Unit {0}) × Writer × Bucket
    → Reply × Session × Bucket
chunk_copied env decode fails now start end total sess (err e, w, b) =
    (refused 500, record sess { bw = w }, b)
chunk_copied env decode fails now start end total sess (ok _, w, b) =
    let n = w.size - sess.bw.size in
    if not (n + start == end + 1)
    then (refused 400, record sess { bw = w }, b)
    else conclude env decode fails now total (record sess { bw = w; offset = sess.offset + n }) b

-- What follows `io.Copy` of a body that is the whole content.
abbrev pub whole_copied :
    Env
    → (Bytes → Option Bytes)
    → Faults
    → ℕ
    → Session
    → Result (Unit {0}) × Writer × Bucket
    → Reply × Session × Bucket
whole_copied env decode fails now sess (err e, w, b) = (refused 500, record sess { bw = w }, b)
whole_copied env decode fails now sess (ok _, w, b) =
    let offset = sess.offset + (w.size - sess.bw.size) in
    conclude env decode fails now (some offset) (record sess { bw = w; offset = offset }) b

-- The request's body, by the header.
unfoldable pub receive :
    Env
    → (Bytes → Option Bytes)
    → Faults
    → ℕ
    → ContentRange
    → List (Bytes × ℕ)
    → Bool
    → Session
    → Bucket
    → Reply × Session × Bucket
receive env decode fails now (probe total) chunks broken sess b =
    conclude env decode fails now total sess b
receive env decode fails now (chunk start end total) chunks broken sess b =
    if not (start == sess.offset)
    then (incomplete sess.offset, sess, b)
    else chunk_copied env decode fails now start end total sess (copy chunks broken sess.bw b)
receive env decode fails now whole chunks broken sess b =
    whole_copied env decode fails now sess (copy chunks broken sess.bw b)
receive env decode fails now malformed chunks broken sess b = (refused 400, sess, b)

-- A chunk of a session that has been found.
unfoldable pub handle_resumable_chunk :
    Env
    → (Bytes → Option Bytes)
    → Faults
    → ℕ
    → ContentRange
    → List (Bytes × ℕ)
    → Bool
    → Session
    → Bucket
    → Reply × Session × Bucket
handle_resumable_chunk env decode fails now range chunks broken sess b =
    if sess.done
    then (refused 410, sess, b)
    else receive env decode fails now range chunks broken sess b
