-- ===== src/S3/Chunked/Ends.antt =====
-- The reader of pkg/s3/awschunked.go comes to an end of every body.
use objectstorage.Prelude.{
  ℕ, zero, suc, ◌+◌, ◌<◌, ◌≤◌, Option, none, some, Bool, true, false, if◌then◌else◌, ltb, ◌==◌,
  List, [], ◌∷◌, ◌++◌, length, drop, ◌≡◌, ◌≢◌, refl, arith, inl, inr, Bool-cases, length-drop,
}
use objectstorage.Prelude.Bytes.{Bytes}
use objectstorage.Prelude.Int.{ℤ, pos, negsuc}
use objectstorage.S3.Chunked.{
  ReadError, AwsChunkedReader, header_size, Header, chunk, last, refused, after_header,
  read_headers, discard_byte, discard_second, discard_crlf, minimum, counted, read_chunk,
  read_trailers, trailed, read_header, read, proceed, read_all, decode, new_reader,
}

discard_byte-length : (broken : Bool) (s : Bytes) → length (discard_byte broken s).1 ≤ length s
discard_byte-length broken [] = omega arith
discard_byte-length broken (c ∷ s) = omega arith

discard_second-length :
    (broken : Bool) (r : Option ReadError × Bytes) → length (discard_second broken r).1 ≤ length r.1
discard_second-length broken (none, s) = discard_byte-length broken s
discard_second-length broken (some e, s) = omega arith

discard_crlf-length : (broken : Bool) (s : Bytes) → length (discard_crlf broken s).1 ≤ length s
unfolding discard_crlf
discard_crlf-length broken s =
    omega
      (arith, discard_second-length broken (discard_byte broken s), discard_byte-length broken s)

-- Without an error, fewer than `n` bytes are left.
abbrev Advances : ℕ → Bytes × Option ReadError × AwsChunkedReader → Type 0
Advances n r = r.1 ≡ none → length r.2.br < n

counted-Advances :
    (n : ℕ) (c : AwsChunkedReader) → 0 < n → n ≤ length c.br → Advances (length c.br) (counted n c)
counted-Advances n c h k e =
    ground (arith, length-drop n c.br, discard_crlf-length c.broken (drop n c.br))

read_chunk-Advances :
    (size most : ℕ) (c : AwsChunkedReader)
    → 0 < c.remaining
    → Advances (length c.br) (read_chunk (suc size) (suc most) c)
read_chunk-Advances size most c h = elim (Bool-cases (length c.br == 0)) [
  | inl p ↦ rw p (λ e. cc)
  | inr p ↦ rw p (
      counted-Advances (minimum (minimum (suc most) (length c.br)) (minimum (suc size) c.remaining))
        c (ground arith) (ground arith))
]

-- What is left behind a header is no more than `n` bytes.
abbrev Within : ℕ → Header → Type 0
Within n (chunk k s) = (0 < k) × (length s ≤ n)
Within n (last s) = length s ≤ n
Within n (refused e s) = length s ≤ n

Within-le : (n m : ℕ) (h : Header) → n ≤ m → Within n h → Within m h
Within-le n m (chunk k s) l (p, q) = (p, omega arith)
Within-le n m (last s) l q = omega arith
Within-le n m (refused e s) l q = omega arith

after_header-Within :
    (size : Option ℤ) (s : Bytes) (again : Header)
    → Within (length s) again
    → Within (length s) (after_header size s again)
after_header-Within none s again h = omega arith
after_header-Within (some (pos zero)) s again h = omega arith
after_header-Within (some (pos (suc n))) s again h = (omega arith, omega arith)
after_header-Within (some (negsuc n)) s again h = h

read_headers-Within : (line s : Bytes) → Within (length s) (read_headers line s)
unfolding read_headers
read_headers-Within line [] = omega arith
read_headers-Within line (c ∷ s) = elim (Bool-cases (c == 10)) [
  | inl p ↦ rw p (
      Within-le (length s) (suc (length s)) _ (omega arith)
        (after_header-Within (header_size (line ++ c ∷ [])) s _ (read_headers-Within [] s)))
  | inr p ↦ rw p (
      Within-le (length s) (suc (length s)) _ (omega arith)
        (read_headers-Within (line ++ c ∷ []) s))
]

trailed-Advances :
    (n : ℕ) (c : AwsChunkedReader) (r : Option ReadError × Bytes) → Advances n (trailed c r)
trailed-Advances n c (none, s) e = cc
trailed-Advances n c (some x, s) e = cc

read_header-Advances :
    (size most n : ℕ) (c : AwsChunkedReader) (h : Header)
    → Within n h
    → Advances n (read_header (suc size) (suc most) c h)
read_header-Advances size most n c (refused e s) w q = cc
read_header-Advances size most n c (last s) w q =
    trailed-Advances n c (read_trailers c.broken [] s) q
read_header-Advances size most n c (chunk k s) (p, l) q =
    omega (arith, read_chunk-Advances size most (record c { br = s; remaining = k }) p q)

if-Advances :
    (n : ℕ) (t : Bool) (x y : Bytes × Option ReadError × AwsChunkedReader)
    → (t ≡ true → Advances n x)
    → (t ≡ false → Advances n y)
    → Advances n (if t then x else y)
if-Advances n true x y h k = h refl
if-Advances n false x y h k = k refl

read-Advances :
    (size most : ℕ) (c : AwsChunkedReader) → Advances (length c.br) (read (suc size) (suc most) c)
unfolding read
read-Advances size most c =
    if-Advances (length c.br) c.done _ _ (λ p e. cc)
      (λ p.
        if-Advances (length c.br) (ltb 0 c.remaining) _ _
          (λ q. read_chunk-Advances size most c (ground arith))
          (λ q.
            read_header-Advances size most (length c.br) c (read_headers [] c.br)
              (read_headers-Within [] c.br)))

proceed-none :
    (piece : Bytes) (error : Option ReadError) (rest : Option (List Bytes × Bool))
    → (error ≡ none → rest ≢ none)
    → proceed piece error rest ≢ none
proceed-none piece none none h = absurd (h refl refl)
proceed-none piece none (some r) h = λ e. cc
proceed-none piece (some x) rest h = λ e. cc

-- Fuel for one read more than there are bytes is enough.
pub read_all-none :
    (fuel size : ℕ) (pick : ℕ → ℕ) (c : AwsChunkedReader)
    → length c.br < fuel
    → read_all fuel size pick c ≢ none
unfolding read_all
read_all-none zero size pick c h = absurd (omega arith)
read_all-none (suc fuel) size pick c h =
    let r = read (suc size) (suc (pick fuel)) c in
    proceed-none r.0 r.1 _
      (λ e. read_all-none fuel size pick r.2 (omega (arith, read-Advances size (pick fuel) c e)))

-- The decoding of a body comes to an end, whatever the body holds and wherever it breaks off, in
-- whatever pieces it arrives and whatever the buffer is.
pub decode_total :
    (size : ℕ) (pick : ℕ → ℕ) (body : Bytes) (broken : Bool) → decode size pick body broken ≢ none
unfolding decode new_reader
decode_total size pick body broken =
    read_all-none (length body + 1) size pick (new_reader body broken) (omega arith)
