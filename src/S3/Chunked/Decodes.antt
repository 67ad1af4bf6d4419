-- ===== src/S3/Chunked/Decodes.antt =====
-- The reader of pkg/s3/awschunked.go against the framing that it reads.
use objectstorage.Prelude.{
  ℕ, zero, suc, ◌+◌, ◌<◌, ◌≤◌, Option, none, some, Bool, false, if◌then◌else◌, ◌==◌, List, [], ◌∷◌,
  ◌++◌, length, take, drop, ◌≡◌, refl, arith, length-drop, length-append, take-append, drop-append,
  take-append-drop, append_assoc, ap, ◌∙◌, sym,
}
use objectstorage.Prelude.Bytes.{Bytes}
use objectstorage.Prelude.Int.{pos}
use objectstorage.S3.Chunked.{
  ReadError, AwsChunkedReader, header_size, Header, chunk, after_header, read_headers, discard_crlf,
  minimum, counted, read_chunk, read_trailers, trailed, read, joined, read_all, decode, new_reader,
  contents,
}

-- A chunk on the wire: its header without the line feed, and its payload.
pub record Frame : Type 0 where
  pub header : Bytes
  pub payload : Bytes

abbrev pub IsOneLine : Bytes → Type 0
IsOneLine [] = Unit {0}
IsOneLine (c ∷ s) = ((c == 10) ≡ false) × IsOneLine s

-- A header of that size, which may carry an extension.
pub record IsHeader (line : Bytes) (size : ℕ) : Type 0 where
  pub one_line : IsOneLine line
  pub sized : header_size (line ++ 10 ∷ []) ≡ some (pos size)

-- Every chunk has a payload, of the size that its header gives.
abbrev pub IsFramed : List Frame → Type 0
IsFramed [] = Unit {0}
IsFramed (f ∷ frames) =
    (0 < length f.payload) × IsHeader f.header (length f.payload) × IsFramed frames

-- The body: the chunks, the last header, and what follows it.
abbrev pub wire : List Frame → Bytes → Bytes
wire [] end = end
wire (f ∷ frames) end = f.header ++ 10 ∷ (f.payload ++ 13 ∷ 10 ∷ wire frames end)

-- The payloads, and what is read behind them.
abbrev pub payloads : List Frame → Bytes → Bytes
payloads [] tail = tail
payloads (f ∷ frames) tail = f.payload ++ payloads frames tail

pub read_headers-line :
    (line l s : Bytes)
    → IsOneLine l
    → read_headers line (l ++ 10 ∷ s)
      ≡ after_header (header_size (line ++ (l ++ 10 ∷ []))) s (read_headers [] s)
unfolding read_headers
read_headers-line line [] s h = refl
read_headers-line line (c ∷ l) s (p, h) =
    let next = read_headers-line (line ++ c ∷ []) l s h in
    ground (arith, p, next, append_assoc line (c ∷ []) (l ++ 10 ∷ []))

pub after_header-chunk :
    (n : ℕ) (s : Bytes) (again : Header) → 0 < n → after_header (some (pos n)) s again ≡ chunk n s
after_header-chunk zero s again h = absurd (omega arith)
after_header-chunk (suc n) s again h = refl

-- A reader inside a chunk, `left` of which is to come.
abbrev inside : Bytes → Bytes → AwsChunkedReader
inside left rest = record {
  br = left ++ 13 ∷ 10 ∷ rest;
  broken = false;
  remaining = length left;
  done = false;
}

abbrev pub between : Bytes → AwsChunkedReader
between rest = record { br = rest; broken = false; remaining = 0; done = false }

-- After a read in a chunk.
abbrev onward : Bytes → Bytes → AwsChunkedReader
onward [] rest = between rest
onward (x ∷ left) rest = inside (x ∷ left) rest

counted-inside :
    (n : ℕ) (left rest : Bytes)
    → n ≤ length left
    → counted n (inside left rest) ≡ (take n left, none, onward (drop n left) rest)
unfolding discard_crlf
counted-inside n left rest h = split (drop n left) refl
  where
    split :
        (o : Bytes)
        → drop n left ≡ o
        → counted n (inside left rest) ≡ (take n left, none, onward (drop n left) rest)
    split [] e = ground (
      arith,
      e,
      take-append n left (13 ∷ 10 ∷ rest) h,
      drop-append n left (13 ∷ 10 ∷ rest) h,
      length-drop n left,
    )
    split (x ∷ o) e = ground (
      arith,
      e,
      take-append n left (13 ∷ 10 ∷ rest) h,
      drop-append n left (13 ∷ 10 ∷ rest) h,
      length-drop n left,
    )

abbrev taken : ℕ → ℕ → Bytes → Bytes → ℕ
taken size most left rest =
    minimum (minimum (suc most) (length (left ++ 13 ∷ 10 ∷ rest)))
      (minimum (suc size) (length left))

read_chunk-inside :
    (size most : ℕ) (left rest : Bytes)
    → 0 < length left
    → (n : ℕ) × (0 < n)
      × (n ≤ length left)
      × (read_chunk (suc size) (suc most) (inside left rest)
          ≡ (take n left, none, onward (drop n left) rest))
read_chunk-inside size most left rest h = (
  taken size most left rest,
  ground (arith, length-append left (13 ∷ 10 ∷ rest)),
  ground (arith, length-append left (13 ∷ 10 ∷ rest)),
  ground (
    arith,
    length-append left (13 ∷ 10 ∷ rest),
    counted-inside (taken size most left rest) left rest,
  ),
)

abbrev pub joined_contents : Bytes → Option (Bytes × Bool) → Option (Bytes × Bool)
joined_contents piece none = none
joined_contents piece (some (content, failed)) = some (piece ++ content, failed)

pub contents-joined :
    (piece : Bytes) (rest : Option (List Bytes × Bool))
    → contents (joined piece rest) ≡ joined_contents piece (contents rest)
contents-joined piece none = refl
contents-joined piece (some (pieces, failed)) = refl

module _ (size : ℕ) (pick : ℕ → ℕ) where
  abbrev pub Yields : ℕ → AwsChunkedReader → Bytes → Type 0
  Yields fuel c content = contents (read_all fuel size pick c) ≡ some (content, false)

  chunk-Yields :
      (fuel : ℕ) (left : Bytes) (rest content : Bytes)
      → 0 < length left
      → ((n : ℕ)
          → 0 < n
          → n ≤ length left
          → Yields fuel (onward (drop n left) rest) (drop n left ++ content))
      → (c : AwsChunkedReader)
      → read (suc size) (suc (pick fuel)) c
        ≡ read_chunk (suc size) (suc (pick fuel)) (inside left rest)
      → Yields (suc fuel) c (left ++ content)
  unfolding read_all
  chunk-Yields fuel left rest content p ih c e =
      let (n, above, below, step) = read_chunk-inside size (pick fuel) left rest p in
      let later = ih n above below in
      let r = e ∙ step in
      simp r (
        contents-joined (take n left) (read_all fuel size pick (onward (drop n left) rest))
        ∙ ap (joined_contents (take n left)) later
        ∙ ap (λ x. some (x, false))
            (sym (append_assoc (take n left) (drop n left) content)
              ∙ ap (λ x. x ++ content) (take-append-drop n left)))

  -- What the framed chunks are followed by, and what is read of that.
  module _ (end tail : Bytes)
      (ends : (fuel : ℕ) → length end ≤ fuel → Yields (suc fuel) (between end) tail) where
    read-frame :
        (most : ℕ) (f : Frame) (frames : List Frame)
        → 0 < length f.payload
        → IsHeader f.header (length f.payload)
        → read (suc size) (suc most) (between (wire (f ∷ frames) end))
          ≡ read_chunk (suc size) (suc most) (inside f.payload (wire frames end))
    unfolding read
    read-frame most f frames p k =
        let s = f.payload ++ 13 ∷ 10 ∷ wire frames end in
        ground (
          arith,
          read_headers-line [] f.header s k.one_line,
          k.sized,
          after_header-chunk (length f.payload) s (read_headers [] s) p,
        )

    read-inside :
        (most : ℕ) (left rest : Bytes)
        → 0 < length left
        → read (suc size) (suc most) (inside left rest)
          ≡ read_chunk (suc size) (suc most) (inside left rest)
    unfolding read
    read-inside most left rest p = ground arith

    -- Wherever the reader stands, the content is what is left of its chunk and the payloads behind.
    read_all-onward :
        (fuel : ℕ) (left : Bytes) (frames : List Frame)
        → IsFramed frames
        → length left + length (wire frames end) < fuel
        → Yields fuel (onward left (wire frames end)) (left ++ (payloads frames tail))
    read_all-onward zero left frames k l = absurd (omega arith)
    read_all-onward (suc fuel) [] [] k l = ends fuel (omega arith)
    read_all-onward (suc fuel) [] (f ∷ frames) (p, header, k) l =
        chunk-Yields fuel f.payload (wire frames end) (payloads frames tail) p
          (λ n above below. read_all-onward fuel (drop n f.payload) frames k (
            omega (
              arith,
              length-drop n f.payload,
              length-append f.header (10 ∷ (f.payload ++ 13 ∷ 10 ∷ wire frames end)),
              length-append f.payload (13 ∷ 10 ∷ wire frames end),
            )))
          (between (wire (f ∷ frames) end)) (read-frame (pick fuel) f frames p header)
    read_all-onward (suc fuel) (x ∷ left) frames k l =
        chunk-Yields fuel (x ∷ left) (wire frames end) (payloads frames tail) (omega arith)
          (λ n above below.
            read_all-onward fuel (drop n (x ∷ left)) frames k
              (omega (arith, length-drop n (x ∷ left))))
          (inside (x ∷ left) (wire frames end))
          (read-inside (pick fuel) (x ∷ left) (wire frames end) (omega arith))

    pub decode-frames :
        (frames : List Frame)
        → IsFramed frames
        → contents (decode size pick (wire frames end) false) ≡ some (payloads frames tail, false)
    unfolding decode new_reader
    decode-frames frames k =
        read_all-onward (length (wire frames end) + 1) [] frames k (omega arith)

  module _ (last_header trailers : Bytes) (h : IsHeader last_header 0) where
    trailers-end : (line s : Bytes) → (read_trailers false line s).0 ≡ none
    unfolding read_trailers
    trailers-end line [] = refl
    trailers-end line (c ∷ s) =
        ground (arith, trailers-end (if c == 10 then [] else line ++ c ∷ []) s)

    ended-Yields :
        (fuel : ℕ) (c : AwsChunkedReader) (r : Option ReadError × Bytes)
        → r.0 ≡ none
        → read (suc size) (suc (pick fuel)) c ≡ trailed c r
        → Yields (suc fuel) c []
    unfolding read_all
    ended-Yields fuel c (none, s) q e = simp e refl
    ended-Yields fuel c (some x, s) q e = cc

    read_all-end : (fuel : ℕ) → Yields (suc fuel) (between (last_header ++ 10 ∷ trailers)) []
    unfolding read
    read_all-end fuel =
        let header = read_headers-line [] last_header trailers h.one_line in
        ended-Yields fuel (between (last_header ++ 10 ∷ trailers)) (read_trailers false [] trailers)
          (trailers-end [] trailers) (ground (arith, header, h.sized))

    -- A body in the framing, whatever the extensions of its headers and its trailers: chunks with a
    -- payload of the size that the header gives, and a last header of size 0. In whatever pieces the
    -- body arrives and whatever the buffer is, the content that is read is the payloads, one after the
    -- other, and the reading ends without an error.
    pub decode-wire :
        (frames : List Frame)
        → IsFramed frames
        → contents (decode size pick (wire frames (last_header ++ 10 ∷ trailers)) false)
          ≡ some (payloads frames [], false)
    decode-wire frames k =
        decode-frames (last_header ++ 10 ∷ trailers) [] (λ fuel l. read_all-end fuel) frames k
