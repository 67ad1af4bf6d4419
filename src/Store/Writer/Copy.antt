-- ===== src/Store/Writer/Copy.antt =====
-- `io.Copy` into a writer, and `PutObject` of pkg/store/blobwriter.go.
use objectstorage.Prelude.{ℕ, Bool, if◌then◌else◌, List, [], ◌∷◌}
use objectstorage.Prelude.Bytes.{Bytes, bytes_Eq}
use objectstorage.Store.Types.{call_failed, Result, ok, err, Env, ObjectInfo, PutOptions}
use objectstorage.Store.Bucket.{path_Eq, Bucket, Faults}
use objectstorage.Store.Writer.{Writer, new_blob_writer, write, abort, commit}

-- `io.Copy` goes on with the rest where a write has succeeded.
abbrev pub resume :
    Result ℕ
    → Result (Unit {0}) × Writer × Bucket
    → Writer
    → Bucket
    → Result (Unit {0}) × Writer × Bucket
resume (ok n) rest w b = rest
resume (err e) rest w b = (err e, w, b)

-- `io.Copy(w, r)`: each chunk that the reader returns, with what the write of it stores, and at the
-- end whether the reader failed.
unfoldable pub copy :
    List (Bytes × ℕ) → Bool → Writer → Bucket → Result (Unit {0}) × Writer × Bucket
copy [] broken w b = ((if broken then err call_failed else ok tt), w, b)
copy ((p, n) ∷ chunks) broken w b =
    let (result, w', b') = write p n w b in resume result (copy chunks broken w' b') w' b'

abbrev pub put_copied :
    Env
    → Faults
    → ℕ
    → Bytes
    → PutOptions
    → Result (Unit {0}) × Writer × Bucket
    → Result ObjectInfo × Bucket
put_copied env fails now name opts (err e, w, b) = (err e, (abort fails w b).1)
put_copied env fails now name opts (ok _, w, b) =
    let (result, w', b') = commit env fails now name opts w b in (result, b')

abbrev pub put_started :
    Env
    → Faults
    → ℕ
    → Bytes
    → List (Bytes × ℕ)
    → Bool
    → PutOptions
    → Result Writer × Bucket
    → Result ObjectInfo × Bucket
put_started env fails now name chunks broken opts (err e, b) = (err e, b)
put_started env fails now name chunks broken opts (ok w, b) =
    put_copied env fails now name opts (copy chunks broken w b)

unfoldable pub put_object :
    Env
    → Faults
    → ℕ
    → Bytes
    → Bytes
    → List (Bytes × ℕ)
    → Bool
    → PutOptions
    → Bucket
    → Result ObjectInfo × Bucket
put_object env fails now temp_name name chunks broken opts b =
    put_started env fails now name chunks broken opts (new_blob_writer fails temp_name b)
