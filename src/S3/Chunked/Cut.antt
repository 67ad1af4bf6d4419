-- ===== src/S3/Chunked/Cut.antt =====
-- What the reader of pkg/s3/awschunked.go makes of a body that ends inside a chunk.
use objectstorage.Prelude.{
  ℕ, zero, suc, ◌+◌, ◌<◌, ◌≤◌, none, some, false, List, [], ◌∷◌, ◌++◌, length, take, drop, ◌≡◌,
  arith, length-drop, length-append, take-append-drop, ap, ◌∙◌, sym,
}
use objectstorage.Prelude.Bytes.{Bytes}
use objectstorage.S3.Chunked.{
  AwsChunkedReader, read_headers, counted, minimum, read_chunk, read, read_all, decode, contents,
}
use objectstorage.S3.Chunked.Decodes.{
  Frame, IsHeader, IsFramed, wire, payloads, between, read_headers-line, after_header-chunk,
  joined_contents, contents-joined, Yields, decode-frames,
}

-- A reader inside a chunk of which `more` bytes and one are missing at the end.
abbrev short : Bytes → ℕ → AwsChunkedReader
short left more = record {
  br = left;
  broken = false;
  remaining = length left + suc more;
  done = false;
}

counted-short :
    (n : ℕ) (left : Bytes) (more : ℕ)
    → n ≤ length left
    → counted n (short left more) ≡ (take n left, none, short (drop n left) more)
counted-short n left more h = ground (arith, length-drop n left)

read-short :
    (size most : ℕ) (x : ℕ) (left : Bytes) (more : ℕ)
    → (n : ℕ) × (0 < n)
      × (n ≤ length (x ∷ left))
      × (read (suc size) (suc most) (short (x ∷ left) more)
          ≡ (take n (x ∷ left), none, short (drop n (x ∷ left)) more))
unfolding read
read-short size most x left more =
    let n =
      minimum (minimum (suc most) (length (x ∷ left)))
        (minimum (suc size) (length (x ∷ left) + suc more)) in
    (n, ground arith, ground arith, ground (arith, counted-short n (x ∷ left) more))

short-chunk :
    (size most : ℕ) (left : Bytes) (more : ℕ)
    → read (suc size) (suc most) (short left more)
      ≡ read_chunk (suc size) (suc most) (short left more)
unfolding read
short-chunk size most left more = ground arith

module _ (size : ℕ) (pick : ℕ → ℕ) where
  read_all-short :
      (fuel : ℕ) (left : Bytes) (more : ℕ)
      → length left < fuel
      → Yields size pick fuel (short left more) left
  unfolding read_all read
  read_all-short zero left more l = absurd (omega arith)
  read_all-short (suc fuel) [] more l = ground arith
  read_all-short (suc fuel) (x ∷ left) more l =
      let (n, above, below, r) = read-short size (pick fuel) x left more in
      let later =
        read_all-short fuel (drop n (x ∷ left)) more (omega (arith, length-drop n (x ∷ left))) in
      simp r (
        contents-joined (take n (x ∷ left))
          (read_all fuel size pick (short (drop n (x ∷ left)) more))
        ∙ ap (joined_contents (take n (x ∷ left))) later
        ∙ ap (λ y. some (y, false)) (take-append-drop n (x ∷ left)))

  module _ (header left : Bytes) (more : ℕ) (h : IsHeader header (length left + suc more)) where
    read-header :
        (most : ℕ)
        → read (suc size) (suc most) (between (header ++ 10 ∷ left))
          ≡ read_chunk (suc size) (suc most) (short left more)
    unfolding read
    read-header most = ground (
      arith,
      read_headers-line [] header left h.one_line,
      h.sized,
      after_header-chunk (length left + suc more) left (read_headers [] left) (omega arith),
    )

    read_all-header :
        (fuel : ℕ)
        → length (header ++ 10 ∷ left) ≤ fuel
        → Yields size pick (suc fuel) (between (header ++ 10 ∷ left)) left
    unfolding read_all
    read_all-header fuel l =
        let same : read (suc size) (suc (pick fuel)) (between (header ++ 10 ∷ left))
            ≡ read (suc size) (suc (pick fuel)) (short left more) =
          read-header (pick fuel) ∙ sym (short-chunk size (pick fuel) left more) in
        simp same
          (read_all-short (suc fuel) left more (omega (arith, length-append header (10 ∷ left))))

    -- A body that ends inside a chunk, behind chunks in the framing: what is there of the chunk is read
    -- behind their payloads, and the reading ends without an error, as that of a whole body does.
    pub decode-cut :
        (frames : List Frame)
        → IsFramed frames
        → contents (decode size pick (wire frames (header ++ 10 ∷ left)) false)
          ≡ some (payloads frames left, false)
    decode-cut frames k =
        decode-frames size pick (header ++ 10 ∷ left) left read_all-header frames k
