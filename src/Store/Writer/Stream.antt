-- ===== src/Store/Writer/Stream.antt =====
-- Streaming a content: the file and the three hashes of a writer have seen the same bytes.
use objectstorage.Prelude.{
  ℕ, some, Bool, false, List, [], ◌∷◌, ◌++◌, append_assoc, append-nil, sym, ◌∙◌, ◌≡◌, refl, arith,
  length, length-append, take, take-all, ap,
}
use objectstorage.Prelude.Bytes.{Bytes, bytes_eq_iff, bytes_Eq}
use objectstorage.Prelude.Dict.{Dict, get, get-put}
use objectstorage.Store.Types.{Result, ok, err, Env}
use objectstorage.Store.Bucket.{FilePath, temp, path_Eq, path_eq_iff, Bucket, Faults}
use objectstorage.Store.Writer.{Writer, checksums, new_blob_writer, write, append_file}
use objectstorage.Store.Writer.Copy.{copy, resume}

-- The writer is open, and its hashes have been fed what its file holds.
pub record IsSynced (w : Writer) (b : Bucket) : Type 0 where
  pub is_open : w.done ≡ false
  pub file : get (temp w.temp_name) b.files ≡ some w.sha
  pub md5 : w.md5h ≡ w.sha
  pub crc : w.crc ≡ w.sha
  pub length : w.size ≡ length w.sha

pub new_blob_writer-IsSynced :
    (fails : Faults) (temp_name : Bytes) (b : Bucket) (w : Writer)
    → (new_blob_writer fails temp_name b).0 ≡ ok w
    → (w.sha ≡ []) × IsSynced w (new_blob_writer fails temp_name b).1
unfolding new_blob_writer
new_blob_writer-IsSynced fails temp_name b w h =
    ground (
      arith,
      get-put (temp temp_name) (temp temp_name) [] b.files,
      bytes_eq_iff temp_name temp_name,
    )

module _ (p : Bytes) (n : ℕ) (w : Writer) (b : Bucket) where
  get-append_file :
      (path : FilePath) (c q : Bytes) (files : Dict FilePath Bytes)
      → get path files ≡ some c
      → get path (append_file path q files) ≡ some (c ++ q)
  get-append_file path c q files h =
      ground (arith, h, get-put path path (c ++ q) files, path_eq_iff path path)

  -- However much of a chunk an open writer stores, its hashes and its size follow its file.
  pub write-IsSynced : IsSynced w b → IsSynced (write p n w b).1 (write p n w b).2
  unfolding write
  write-IsSynced h =
      let path = temp w.temp_name in
      ground (
        arith,
        get-append_file path w.sha (take n p) b.files h.file,
        length-append {0} w.sha (take n p),
      )

  -- A write that succeeds has written the whole chunk.
  pub write-ok :
      (m : ℕ) → w.done ≡ false → (write p n w b).0 ≡ ok m → (write p n w b).1.sha ≡ w.sha ++ p
  unfolding write
  write-ok m o h = rw o (ap (λ (q : Bytes). w.sha ++ q) (take-all n p (ground arith)))

abbrev pub concat : List (Bytes × ℕ) → Bytes
concat [] = []
concat ((p, n) ∷ chunks) = p ++ concat chunks

-- What a copy that succeeds has done.
pub record IsCopied (chunks : List (Bytes × ℕ)) (w w' : Writer) (b' : Bucket) : Type 0 where
  pub content : w'.sha ≡ w.sha ++ concat chunks
  pub synced : IsSynced w' b'

pub write-IsCopied :
    (p : Bytes) (n m : ℕ) (chunks : List (Bytes × ℕ)) (w w' : Writer) (b b' : Bucket)
    → IsSynced w b
    → (write p n w b).0 ≡ ok m
    → IsCopied chunks (write p n w b).1 w' b'
    → IsCopied ((p, n) ∷ chunks) w w' b'
write-IsCopied p n m chunks w w' b b' h e c = record {
  content =
      c.content ∙ (rw (write-ok p n w b m h.is_open e) (append_assoc w.sha p (concat chunks)));
  synced = c.synced;
}

resume-IsCopied :
    (p : Bytes) (n : ℕ) (chunks : List (Bytes × ℕ)) (w : Writer) (b : Bucket) (result : Result ℕ)
    (rest : Result (Unit {0}) × Writer × Bucket)
    → IsSynced w b
    → (write p n w b).0 ≡ result
    → (rest.0 ≡ ok tt → IsCopied chunks (write p n w b).1 rest.1 rest.2)
    → (resume result rest (write p n w b).1 (write p n w b).2).0 ≡ ok tt
    → IsCopied
        ((p, n) ∷ chunks)
        w
        (resume result rest (write p n w b).1 (write p n w b).2).1
        (resume result rest (write p n w b).1 (write p n w b).2).2
resume-IsCopied p n chunks w b (ok m) rest h e ih q =
    write-IsCopied p n m chunks w rest.1 b rest.2 h e (ih q)
resume-IsCopied p n chunks w b (err x) rest h e ih q = cc

-- A copy that succeeds, into an open writer whose hashes follow its file, has streamed every chunk of
-- the reader, whole and in order, and the hashes still follow the file.
pub copy-IsCopied :
    (chunks : List (Bytes × ℕ)) (broken : Bool) (w : Writer) (b : Bucket)
    → IsSynced w b
    → (copy chunks broken w b).0 ≡ ok tt
    → IsCopied chunks w (copy chunks broken w b).1 (copy chunks broken w b).2
unfolding copy
copy-IsCopied [] broken w b h e = record { content = sym (append-nil w.sha); synced = h }
copy-IsCopied ((p, n) ∷ chunks) broken w b h e =
    resume-IsCopied p n chunks w b (write p n w b).0
      (copy chunks broken (write p n w b).1 (write p n w b).2) h refl
      (copy-IsCopied chunks broken (write p n w b).1 (write p n w b).2 (write-IsSynced p n w b h)) e

-- After a copy that succeeds, into an open writer whose hashes follow its file, the checksums are the
-- digests of all that was streamed, and the size is its length.
pub checksums-copy :
    (env : Env) (chunks : List (Bytes × ℕ)) (broken : Bool) (w : Writer) (b : Bucket)
    → IsSynced w b
    → (copy chunks broken w b).0 ≡ ok tt
    → (checksums env (copy chunks broken w b).1 ≡ (
      env.sha256_hex (w.sha ++ concat chunks),
      env.md5_sum (w.sha ++ concat chunks),
      env.crc32c_sum (w.sha ++ concat chunks),
    ))
      × ((copy chunks broken w b).1.size ≡ length (w.sha ++ concat chunks))
unfolding checksums
checksums-copy env chunks broken w b h e =
    let c = copy-IsCopied chunks broken w b h e in
    rw (c.synced.md5, c.synced.crc, c.synced.length, c.content) (refl, refl)
