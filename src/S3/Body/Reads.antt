-- ===== src/S3/Body/Reads.antt =====
-- The content that a copy gets of a body, in pkg/s3.
use objectstorage.Prelude.{
  ℕ, zero, suc, ◌≤◌, ◌≡◌, refl, Bool, true, false, some, Option, none, ◌≢◌, List, [], ◌∷◌, ◌++◌,
  length, take, drop, arith, if◌then◌else◌, ltb, take-append-drop, length-drop, ap, ◌∙◌,
}
use objectstorage.Prelude.Bytes.{Bytes}
use objectstorage.Http.{Request, raw_pieces, pieces_of, from_some}
use objectstorage.S3.Chunked.{flatten, contents, decode}
use objectstorage.S3.Chunked.Ends.{decode_total}
use objectstorage.S3.Chunked.Decodes.{Frame, IsHeader, IsFramed, wire, payloads, decode-wire}
use objectstorage.Store.Writer.Stream.{concat}
use objectstorage.S3.Body.{Host, is_chunked, request_body, with_writes}

pub concat-with_writes :
    (stored : ℕ → ℕ) (pieces : List Bytes) → concat (with_writes stored pieces) ≡ flatten pieces
unfolding with_writes
concat-with_writes stored [] = refl
concat-with_writes stored (p ∷ pieces) = ap (λ s. p ++ s) (concat-with_writes stored pieces)

flatten-raw_pieces :
    (fuel size : ℕ) (pick : ℕ → ℕ) (s : Bytes)
    → length s ≤ fuel
    → flatten (raw_pieces fuel size pick s) ≡ s
unfolding raw_pieces
flatten-raw_pieces zero size pick [] h = refl
flatten-raw_pieces zero size pick (c ∷ s) h = absurd (omega arith)
flatten-raw_pieces (suc fuel) size pick [] h = refl
flatten-raw_pieces (suc fuel) size pick (c ∷ s) h =
    let n = if ltb size (pick fuel) then size else pick fuel in
    let rest = flatten-raw_pieces fuel size pick (drop n s) (omega (arith, length-drop n s)) in
    ap (λ x. c ∷ (take n s ++ x)) rest ∙ ap (λ x. c ∷ x) (take-append-drop n s)

-- A copy of a body gets all of it, in whatever pieces.
pub flatten-pieces_of : (size : ℕ) (pick : ℕ → ℕ) (s : Bytes) → flatten (pieces_of size pick s) ≡ s
unfolding pieces_of
flatten-pieces_of size pick s = flatten-raw_pieces (length s) size pick s (omega arith)

contents-from_some :
    (o : Option (List Bytes × Bool)) (h : o ≢ none) (content : Bytes) (failed : Bool)
    → contents o ≡ some (content, failed)
    → (flatten (from_some o h).0 ≡ content) × ((from_some o h).1 ≡ failed)
contents-from_some none h content failed e = absurd (h refl)
contents-from_some (some (pieces, f)) h content failed e = ground arith

module _ (host : Host) (r : Request) where
  pub request_body-plain :
      is_chunked r ≡ false
      → (flatten (request_body host r).0 ≡ r.body) × ((request_body host r).1 ≡ r.broken)
  unfolding request_body
  request_body-plain p = simp p (flatten-pieces_of host.buffer host.pick r.body, refl)

  -- The body of a request in the aws-chunked framing is the payloads of its chunks.
  pub request_body-wire :
      (frames : List Frame) (last_header trailers : Bytes)
      → is_chunked r ≡ true
      → IsFramed frames
      → IsHeader last_header 0
      → r.body ≡ wire frames (last_header ++ 10 ∷ trailers)
      → r.broken ≡ false
      → (flatten (request_body host r).0 ≡ payloads frames []) × ((request_body host r).1 ≡ false)
  unfolding request_body
  request_body-wire frames last_header trailers p framed header body whole = simp p (
      contents-from_some (decode host.buffer host.pick r.body r.broken)
        (decode_total host.buffer host.pick r.body r.broken) (payloads frames []) false
        (ground (
          arith,
          body,
          whole,
          decode-wire host.buffer host.pick last_header trailers header frames framed,
        )))
