-- ===== src/Gcs/Upload/Broken.antt =====
-- A chunk whose body breaks off, and is sent again.
use objectstorage.Prelude.{
  ℕ, ◌≤◌, ◌∙◌, ◌+◌, ◌-◌, Option, true, false, ◌==◌, List, [], ◌∷◌, ◌++◌, length, ◌≡◌, refl, sym, ap,
  subst, arith, inl, inr, Bool-cases, append-nil,
}
use objectstorage.Prelude.Bytes.{Bytes}
use objectstorage.Store.Types.{Result, ok, err, call_failed, Env}
use objectstorage.Store.Bucket.{Bucket, Faults}
use objectstorage.Store.Writer.{Writer, write}
use objectstorage.Store.Writer.Stream.{
  IsSynced, IsCopied, copy-IsCopied, write-IsSynced, write-IsCopied, concat,
}
use objectstorage.Store.Listing.Reference.{All}
use objectstorage.Store.Writer.Copy.{copy}
use objectstorage.Gcs.Upload.Commit.{commit_upload-ne-incomplete}
use objectstorage.Gcs.Upload.{
  Reply, incomplete, refused, commit_upload, Session, chunk, is_total, conclude, chunk_copied,
  receive, handle_resumable_chunk,
}
use objectstorage.Gcs.Upload.Resume.{IsStreaming, finalized_progress}

write-all :
    (p : Bytes) (n : ℕ) (w : Writer) (b : Bucket)
    → w.done ≡ false
    → length p ≤ n
    → (write p n w b).0 ≡ ok n
unfolding write
write-all p n w b o h = ground (arith, o, h)

-- A copy from a reader that breaks off, where each write stores its piece, has stored what was read.
copy-IsBroken :
    (chunks : List (Bytes × ℕ)) (w : Writer) (b : Bucket)
    → IsSynced w b
    → All (λ c. length c.0 ≤ c.1) chunks
    → ((copy chunks true w b).0 ≡ err call_failed)
      × IsCopied chunks w (copy chunks true w b).1 (copy chunks true w b).2
unfolding copy
copy-IsBroken [] w b h k = (refl, record { content = sym (append-nil w.sha); synced = h })
copy-IsBroken ((p, n) ∷ chunks) w b h (k, ks) =
    let (failed, c) =
      copy-IsBroken chunks (write p n w b).1 (write p n w b).2 (write-IsSynced p n w b h) ks in
    let stores = write-all p n w b h.is_open k in
    simp stores (failed, write-IsCopied p n n chunks w _ b _ h stores c)

module _ (env : Env) (decode : Bytes → Option Bytes) (fails : Faults) (now : ℕ) where
  -- A session that is answered with progress goes on as it is.
  conclude_kept :
      (total : Option ℕ) (sess : Session) (b : Bucket) (progress : ℕ)
      → (conclude env decode fails now total sess b).0 ≡ incomplete progress
      → (conclude env decode fails now total sess b).1 ≡ sess
  conclude_kept total sess b progress q = elim (Bool-cases (is_total total sess.offset)) [
    | inl t ↦ absurd (
        ground (
          arith,
          q,
          t,
          finalized_progress env decode fails now sess
              (commit_upload env decode fails now sess.meta sess.conds sess.bw b),
          commit_upload-ne-incomplete env decode fails now sess.meta sess.conds sess.bw b progress,
        ))
    | inr t ↦ rw t refl
  ]

  -- A chunk that is taken, whatever the session's writer holds before.
  record Taken (start end : ℕ) (sess : Session) (bytes : Bytes) (sess' : Session) : Type 0 where
    offset : sess'.offset + start ≡ sess.offset + (end + 1)
    content : sess'.bw.sha ≡ sess.bw.sha ++ bytes

  chunk_copied-Taken :
      (start end : ℕ) (total : Option ℕ) (sess : Session) (bytes : Bytes) (progress : ℕ)
      (r : Result (Unit {0}) × Writer × Bucket)
      → (r.0 ≡ ok tt → r.1.sha ≡ sess.bw.sha ++ bytes)
      → (chunk_copied env decode fails now start end total sess r).0 ≡ incomplete progress
      → Taken start end sess bytes (chunk_copied env decode fails now start end total sess r).1
  chunk_copied-Taken start end total sess bytes progress (err e, w, b) k q = cc
  chunk_copied-Taken start end total sess bytes progress (ok x, w, b) k q =
      let n = w.size - sess.bw.size in
      elim (Bool-cases (n + start == end + 1)) [
        | inr t ↦ absurd (ground (arith, q, t))
        | inl t ↦
            let grown = record sess { bw = w; offset = sess.offset + n } in
            let kept = conclude_kept total grown b progress (rw t at q) in
            rw t (simp kept (record { offset = ground (arith, t); content = k refl }))
      ]

  chunk_copied-failed :
      (start end : ℕ) (total : Option ℕ) (sess : Session) (r : Result (Unit {0}) × Writer × Bucket)
      → r.0 ≡ err call_failed
      → chunk_copied env decode fails now start end total sess r
        ≡ (refused 500, record sess { bw = r.1 }, r.2)
  chunk_copied-failed start end total sess (err e, w, b) h = refl
  chunk_copied-failed start end total sess (ok x, w, b) h = cc

  handle_resumable_chunk-Taken :
      (start end : ℕ) (total : Option ℕ) (chunks : List (Bytes × ℕ)) (sess : Session) (b : Bucket)
      (progress : ℕ)
      → sess.done ≡ false
      → start ≡ sess.offset
      → IsSynced sess.bw b
      → (handle_resumable_chunk env decode fails now (chunk start end total) chunks false sess b).0
        ≡ incomplete progress
      → Taken start end sess
          (concat chunks)
          (handle_resumable_chunk env decode fails now
            (chunk start end total)
            chunks
            false
            sess
            b).1
  unfolding handle_resumable_chunk receive
  handle_resumable_chunk-Taken start end total chunks sess b progress o e synced q =
      let same : (start == sess.offset) ≡ true = ground (arith, e) in
      simp (o, same)
        (chunk_copied-Taken start end total sess (concat chunks) progress
          (copy chunks false sess.bw b)
          (λ c. (copy-IsCopied chunks false sess.bw b synced c).content) (simp (o, same) at q))

  handle_resumable_chunk-failed :
      (start end : ℕ) (total : Option ℕ) (parts : List (Bytes × ℕ)) (sess : Session) (b : Bucket)
      → sess.done ≡ false
      → start ≡ sess.offset
      → (copy parts true sess.bw b).0 ≡ err call_failed
      → handle_resumable_chunk env decode fails now (chunk start end total) parts true sess b ≡ (
        refused 500,
        record sess { bw = (copy parts true sess.bw b).1 },
        (copy parts true sess.bw b).2,
      )
  unfolding handle_resumable_chunk receive
  handle_resumable_chunk-failed start end total parts sess b o e failed =
      let closed = chunk_copied-failed start end total sess (copy parts true sess.bw b) failed in
      ground (arith, o, e, closed)

  -- A chunk of a streaming session begins at its offset, and its body breaks off when `parts` have been
  -- read, each of which is stored whole: it is answered with status 500, and the session stays open at
  -- its old offset. If the chunk is then sent again, in full, and answered with progress, the offset
  -- is behind the chunk, but the writer holds, behind what it held, the broken attempt and then the
  -- chunk: what is stored is longer than the offset by the broken attempt.
  pub handle_resumable_chunk-broken :
      (start end : ℕ) (total : Option ℕ) (parts again : List (Bytes × ℕ)) (sess after : Session)
      (b b' : Bucket) (reply : Reply) (progress : ℕ)
      → IsStreaming sess b
      → start ≡ sess.offset
      → All (λ c. length c.0 ≤ c.1) parts
      → handle_resumable_chunk env decode fails now (chunk start end total) parts true sess b
        ≡ (reply, after, b')
      → (handle_resumable_chunk env decode fails now (chunk start end total) again false after b').0
        ≡ incomplete progress
      → let last =
          (handle_resumable_chunk env decode fails now
            (chunk start end total)
            again
            false
            after
            b').1 in
        (reply ≡ refused 500)
        × (after.done ≡ false)
        × (after.offset ≡ sess.offset)
        × (last.offset ≡ end + 1)
        × (last.bw.sha ≡ sess.bw.sha ++ concat parts ++ concat again)
  handle_resumable_chunk-broken start end total parts again sess after b b' reply progress s e
        stored tried q =
      let (failed, c) = copy-IsBroken parts sess.bw b s.synced stored in
      let first = handle_resumable_chunk-failed start end total parts sess b s.is_open e failed in
      let replied : reply ≡ refused 500 = ap (λ x. x.0) (sym tried ∙ first) in
      let went_on : after ≡ record sess { bw = (copy parts true sess.bw b).1 } =
        ap (λ x. x.1) (sym tried ∙ first) in
      let files : b' ≡ (copy parts true sess.bw b).2 = ap (λ x. x.2) (sym tried ∙ first) in
      let opened : after.done ≡ false = ap (λ x. x.done) went_on ∙ s.is_open in
      let stays : after.offset ≡ sess.offset = ap (λ x. x.offset) went_on in
      let holds : after.bw.sha ≡ sess.bw.sha ++ concat parts =
        ap (λ x. x.bw.sha) went_on ∙ c.content in
      let synced : IsSynced after.bw b' =
        subst (λ x. IsSynced x b') (sym (ap (λ x. x.bw) went_on))
          (subst (λ x. IsSynced (copy parts true sess.bw b).1 x) (sym files) c.synced) in
      let taken =
        handle_resumable_chunk-Taken start end total again after b' progress opened (e ∙ sym stays)
          synced q in
      (
        replied,
        opened,
        stays,
        ground (arith, taken.offset, stays, e),
        taken.content ∙ ap (λ l. l ++ concat again) holds,
      )
