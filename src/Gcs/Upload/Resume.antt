-- ===== src/Gcs/Upload/Resume.antt =====
-- Resumable uploads: a session's offset is what its writer holds, until a chunk fails.
use objectstorage.Prelude.{
  ℕ, ◌+◌, ◌-◌, Option, some, Bool, false, if◌then◌else◌, ◌==◌, List, [], ◌++◌, ◌≡◌, refl, sym,
  arith, inl, inr, Bool-cases, length-append, append-nil,
}
use objectstorage.Prelude.Bytes.{Bytes}
use objectstorage.Store.Types.{Result, ok, err, Env}
use objectstorage.Store.Bucket.{Bucket, Faults}
use objectstorage.Store.Writer.{Writer}
use objectstorage.Store.Writer.Stream.{IsSynced, copy-IsCopied, concat}
use objectstorage.Store.Writer.Copy.{copy}
use objectstorage.Gcs.Upload.Commit.{commit_upload-ne-incomplete}
use objectstorage.Gcs.Upload.{
  Reply, incomplete, commit_upload, Session, ContentRange, probe, chunk, whole, malformed, is_total,
  finalized, conclude, chunk_copied, whole_copied, receive, handle_resumable_chunk,
}

-- The session is open, its writer follows its file, and its offset is the size of the writer.
pub record IsStreaming (sess : Session) (b : Bucket) : Type 0 where
  pub is_open : sess.done ≡ false
  pub synced : IsSynced sess.bw b
  pub offset : sess.offset ≡ sess.bw.size

-- The bytes that a chunk adds to a session that goes on after it.
abbrev pub added : ContentRange → List (Bytes × ℕ) → ℕ → Bytes
added (probe total) chunks offset = []
added (chunk start end total) chunks offset = if start == offset then concat chunks else []
added whole chunks offset = concat chunks
added malformed chunks offset = []

-- A session that goes on has taken the bytes of its chunk and no others.
pub record Resumed (sess : Session) (bytes : Bytes) (progress : ℕ) (sess' : Session) (b' : Bucket)
    : Type 0 where
  pub streaming : IsStreaming sess' b'
  pub content : sess'.bw.sha ≡ sess.bw.sha ++ bytes
  pub reported : progress ≡ sess'.offset

module _ (env : Env) (decode : Bytes → Option Bytes) (fails : Faults) (now : ℕ) where
  pub finalized_progress :
      (sess : Session) (r : Reply × Writer × Bucket) → (finalized sess r).0 ≡ r.0
  finalized_progress sess (reply, w, b) = refl

  conclude-Resumed :
      (total : Option ℕ) (sess sess' : Session) (b : Bucket) (bytes : Bytes) (progress : ℕ)
      → IsStreaming sess' b
      → sess'.bw.sha ≡ sess.bw.sha ++ bytes
      → (conclude env decode fails now total sess' b).0 ≡ incomplete progress
      → Resumed sess bytes progress
          (conclude env decode fails now total sess' b).1
          (conclude env decode fails now total sess' b).2
  conclude-Resumed total sess sess' b bytes progress s c q =
      elim (Bool-cases (is_total total sess'.offset)) [
        | inl t ↦ absurd (
            ground (
              arith,
              q,
              t,
              finalized_progress sess'
                  (commit_upload env decode fails now sess'.meta sess'.conds sess'.bw b),
              commit_upload-ne-incomplete env decode fails now sess'.meta sess'.conds sess'.bw b
                  progress,
            ))
        | inr t ↦ rw t (record { streaming = s; content = c; reported = ground (arith, q, t) })
      ]

  grown :
      (sess : Session) (bytes : Bytes) (w : Writer) (b b' : Bucket)
      → IsStreaming sess b
      → IsSynced w b'
      → w.sha ≡ sess.bw.sha ++ bytes
      → IsStreaming (record sess { bw = w; offset = sess.offset + (w.size - sess.bw.size) }) b'
  grown sess bytes w b b' s k c = record {
    is_open = s.is_open;
    synced = k;
    offset =
        ground (arith, s.offset, s.synced.length, k.length, c, length-append {0} sess.bw.sha bytes);
  }

  chunk_copied-Resumed :
      (start end : ℕ) (total : Option ℕ) (sess : Session) (b : Bucket) (bytes : Bytes)
      (progress : ℕ) (r : Result (Unit {0}) × Writer × Bucket)
      → IsStreaming sess b
      → (r.0 ≡ ok tt → IsSynced r.1 r.2 × (r.1.sha ≡ sess.bw.sha ++ bytes))
      → (chunk_copied env decode fails now start end total sess r).0 ≡ incomplete progress
      → Resumed sess bytes progress
          (chunk_copied env decode fails now start end total sess r).1
          (chunk_copied env decode fails now start end total sess r).2
  chunk_copied-Resumed start end total sess b bytes progress (err e, w, b') s k q = cc
  chunk_copied-Resumed start end total sess b bytes progress (ok x, w, b') s k q =
      let (synced, c) = k refl in
      elim (Bool-cases (w.size - sess.bw.size + start == end + 1)) [
        | inr t ↦ absurd (ground (arith, q, t))
        | inl t ↦ rw t (
            conclude-Resumed total sess _ b' bytes progress (grown sess bytes w b b' s synced c) c
              (rw t at q))
      ]

  whole_copied-Resumed :
      (sess : Session) (b : Bucket) (bytes : Bytes) (progress : ℕ)
      (r : Result (Unit {0}) × Writer × Bucket)
      → IsStreaming sess b
      → (r.0 ≡ ok tt → IsSynced r.1 r.2 × (r.1.sha ≡ sess.bw.sha ++ bytes))
      → (whole_copied env decode fails now sess r).0 ≡ incomplete progress
      → Resumed sess bytes progress
          (whole_copied env decode fails now sess r).1
          (whole_copied env decode fails now sess r).2
  whole_copied-Resumed sess b bytes progress (err e, w, b') s k q = cc
  whole_copied-Resumed sess b bytes progress (ok x, w, b') s k q =
      let (synced, c) = k refl in
      conclude-Resumed (some (sess.offset + (w.size - sess.bw.size))) sess _ b' bytes progress
        (grown sess bytes w b b' s synced c) c q

  copied :
      (chunks : List (Bytes × ℕ)) (broken : Bool) (sess : Session) (b : Bucket)
      → IsStreaming sess b
      → (copy chunks broken sess.bw b).0 ≡ ok tt
      → IsSynced (copy chunks broken sess.bw b).1 (copy chunks broken sess.bw b).2
        × ((copy chunks broken sess.bw b).1.sha ≡ sess.bw.sha ++ concat chunks)
  copied chunks broken sess b s e =
      let c = copy-IsCopied chunks broken sess.bw b s.synced e in (c.synced, c.content)

  -- A request that a streaming session answers with its progress, whatever calls fail, leaves the
  -- session streaming: the offset that is reported is the size of what has been stored, and that has
  -- grown by the body, if the body was taken, and by nothing if its range did not begin at the offset.
  pub handle_resumable_chunk-Resumed :
      (range : ContentRange) (chunks : List (Bytes × ℕ)) (broken : Bool) (sess : Session)
      (b : Bucket) (progress : ℕ)
      → IsStreaming sess b
      → (handle_resumable_chunk env decode fails now range chunks broken sess b).0
        ≡ incomplete progress
      → Resumed sess
          (added range chunks sess.offset)
          progress
          (handle_resumable_chunk env decode fails now range chunks broken sess b).1
          (handle_resumable_chunk env decode fails now range chunks broken sess b).2
  unfolding handle_resumable_chunk receive
  handle_resumable_chunk-Resumed (probe total) chunks broken sess b progress s q = simp s.is_open (
      conclude-Resumed total sess sess b [] progress s (sym (append-nil sess.bw.sha))
        (simp s.is_open at q))
  handle_resumable_chunk-Resumed (chunk start end total) chunks broken sess b progress s q =
      elim (Bool-cases (start == sess.offset)) [
        | inl t ↦
            simp (s.is_open, t)
              (chunk_copied-Resumed start end total sess b (concat chunks) progress _ s
                (copied chunks broken sess b s) (simp (s.is_open, t) at q))
        | inr t ↦
            simp (s.is_open, t)
              (record {
                streaming = s;
                content = sym (append-nil sess.bw.sha);
                reported = ground (arith, q, t, s.is_open);
              })
      ]
  handle_resumable_chunk-Resumed whole chunks broken sess b progress s q = simp s.is_open (
      whole_copied-Resumed sess b (concat chunks) progress _ s (copied chunks broken sess b s)
        (simp s.is_open at q))
  handle_resumable_chunk-Resumed malformed chunks broken sess b progress s q =
      absurd (ground (arith, q, s.is_open))
