-- ===== src/S3/Chunked.antt =====
-- pkg/s3/awschunked.go: the reader of the aws-chunked framing. A body is the bytes that are left of
-- it, and whether it ends in an error other than `io.EOF`.
pub mod Ends
pub mod Decodes
pub mod Cut
use objectstorage.Prelude.{
  ℕ, zero, suc, ◌+◌, ◌-◌, Option, none, some, Bool, true, false, not, ◌&&◌, ◌||◌, if◌then◌else◌,
  ltb, ◌==◌, List, [], ◌∷◌, ◌++◌, length, take, drop,
}
use objectstorage.Prelude.Bytes.{Bytes, bytes_eq}
use objectstorage.Prelude.Int.{ℤ, pos, negsuc}
use objectstorage.S3.Text.{is_newline, trim_newline, before, trim_space, parse_int}

-- `ended` is io.EOF itself; the others are what stops a copy with an error.
pub data ReadError : Type 0 where
  ended broken_body cut_header invalid_size missing_newline : ReadError

-- `remaining` is never negative between two reads.
pub record AwsChunkedReader : Type 0 where
  pub br : Bytes
  pub broken : Bool
  pub remaining : ℕ
  pub done : Bool

-- The error that ends a body.
abbrev pub ending : Bool → ReadError
ending broken = if broken then broken_body else ended

-- The size that a header line gives.
unfoldable pub header_size : Bytes → Option ℤ
header_size line = parse_int (trim_space (before b';' (trim_newline line)))

-- What the loop over headers comes to: a chunk, the last chunk, or an error.
pub data Header : Type 0 where
  chunk : ℕ → Bytes → Header
  last : Bytes → Header
  refused : ReadError → Bytes → Header

-- What follows a header: where its size is negative, the loop goes on.
abbrev pub after_header : Option ℤ → Bytes → Header → Header
after_header none s again = refused invalid_size s
after_header (some (pos zero)) s again = last s
after_header (some (pos (suc n))) s again = chunk (suc n) s
after_header (some (negsuc n)) s again = again

-- `line` is what `ReadString` has read of a header.
unfoldable pub read_headers : Bytes → Bytes → Header
read_headers line [] = refused cut_header []
read_headers line (c ∷ s) =
    let rest = read_headers (if c == 10 then [] else line ++ c ∷ []) s in
    if c == 10 then after_header (header_size (line ++ c ∷ [])) s rest else rest

-- The trailers, up to a blank line or the end: the error if there is one, and what is left.
unfoldable pub read_trailers : Bool → Bytes → Bytes → Option ReadError × Bytes
read_trailers broken line [] =
    ((if broken && not (bytes_eq (trim_newline line) []) then some broken_body else none), [])
read_trailers broken line (c ∷ s) =
    let rest = read_trailers broken (if c == 10 then [] else line ++ c ∷ []) s in
    if c == 10 && bytes_eq (trim_newline (line ++ c ∷ [])) [] then (none, s) else rest

abbrev pub discard_byte : Bool → Bytes → Option ReadError × Bytes
discard_byte broken [] = (some (ending broken), [])
discard_byte broken (c ∷ s) = ((if is_newline c then none else some missing_newline), s)

abbrev discard_second : Bool → Option ReadError × Bytes → Option ReadError × Bytes
discard_second broken (none, s) = discard_byte broken s
discard_second broken (some e, s) = (some e, s)

unfoldable pub discard_crlf : Bool → Bytes → Option ReadError × Bytes
discard_crlf broken s = discard_second broken (discard_byte broken s)

abbrev pub minimum : ℕ → ℕ → ℕ
minimum a b = if ltb b a then b else a

-- After `n` bytes of a chunk have been read.
abbrev pub counted : ℕ → AwsChunkedReader → Bytes × Option ReadError × AwsChunkedReader
counted n c =
    let (error, rest) = discard_crlf c.broken (drop n c.br) in
    if c.remaining - n == 0
    then (take n c.br, error, record c { br = rest; remaining = 0 })
    else (take n c.br, none, record c { br = drop n c.br; remaining = c.remaining - n })

-- `size` is `len(p)`; of a body that has not ended, the buffered reader gives `most` bytes, if there
-- are as many and they fit.
abbrev pub read_chunk : ℕ → ℕ → AwsChunkedReader → Bytes × Option ReadError × AwsChunkedReader
read_chunk size most c =
    if length c.br == 0
    then ([], some (ending c.broken), c)
    else counted (minimum (minimum most (length c.br)) (minimum size c.remaining)) c

abbrev trailed :
    AwsChunkedReader → Option ReadError × Bytes → Bytes × Option ReadError × AwsChunkedReader
trailed c (none, s) = ([], some ended, record c { br = s; done = true })
trailed c (some e, s) = ([], some e, record c { br = s })

abbrev pub read_header :
    ℕ → ℕ → AwsChunkedReader → Header → Bytes × Option ReadError × AwsChunkedReader
read_header size most c (refused e s) = ([], some e, record c { br = s })
read_header size most c (last s) = trailed c (read_trailers c.broken [] s)
read_header size most c (chunk n s) = read_chunk size most (record c { br = s; remaining = n })

unfoldable pub read : ℕ → ℕ → AwsChunkedReader → Bytes × Option ReadError × AwsChunkedReader
read size most c =
    if c.done
    then ([], some ended, c)
    else if ltb 0 c.remaining
    then read_chunk size most c
    else read_header size most c (read_headers [] c.br)

unfoldable pub new_reader : Bytes → Bool → AwsChunkedReader
new_reader body broken = record { br = body; broken = broken; remaining = 0; done = false }

-- What `io.Copy` gets of the reader: the pieces, and whether it stops with an error.
abbrev is_failure : ReadError → Bool
is_failure ended = false
is_failure _ = true

abbrev pub joined : Bytes → Option (List Bytes × Bool) → Option (List Bytes × Bool)
joined piece none = none
joined piece (some (pieces, failed)) = some (piece ∷ pieces, failed)

abbrev pub proceed :
    Bytes → Option ReadError → Option (List Bytes × Bool) → Option (List Bytes × Bool)
proceed piece none rest = joined piece rest
proceed piece (some e) rest = some (piece ∷ [], is_failure e)

-- The reads of a copy with a buffer of `size + 1` bytes, on fuel; of a body that has not ended, the
-- read with `fuel` left gives up to `pick fuel + 1` bytes.
unfoldable pub read_all : ℕ → ℕ → (ℕ → ℕ) → AwsChunkedReader → Option (List Bytes × Bool)
read_all zero size pick c = none
read_all (suc fuel) size pick c =
    let (piece, error, c') = read (suc size) (suc (pick fuel)) c in
    let rest = read_all fuel size pick c' in proceed piece error rest

-- Every read but the last takes a byte, so that the body's length and one more is fuel enough.
unfoldable pub decode : ℕ → (ℕ → ℕ) → Bytes → Bool → Option (List Bytes × Bool)
decode size pick body broken = read_all (length body + 1) size pick (new_reader body broken)

-- The content that the pieces come to.
abbrev pub flatten : List Bytes → Bytes
flatten [] = []
flatten (piece ∷ pieces) = piece ++ flatten pieces

abbrev pub contents : Option (List Bytes × Bool) → Option (Bytes × Bool)
contents none = none
contents (some (pieces, failed)) = some (flatten pieces, failed)
