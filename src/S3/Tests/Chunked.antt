-- ===== src/S3/Tests/Chunked.antt =====
-- Bodies in the aws-chunked framing: "dog" in two chunks.
use objectstorage.Prelude.{none, some, true, false, [], ◌∷◌, ◌++◌, List, ◌≡◌, ◌≢◌, refl, arith}
use objectstorage.Prelude.Bytes.{Bytes, codes}
use objectstorage.S3.Text.{
  trim_newline, before, trim_space, leading, trim_end, all_space, parse_int, hex_digits,
}
use objectstorage.S3.Chunked.{header_size, decode, contents}
use objectstorage.S3.Chunked.Ends.{decode_total}
use objectstorage.S3.Chunked.Decodes.{Frame, IsHeader, IsFramed, wire}
use objectstorage.S3.Chunked.Cut.{decode-cut}

abbrev pub dog_frames : List Frame
dog_frames =
    record { header = codes "2;s=f" ++ 13 ∷ []; payload = codes "do" }
    ∷ record { header = codes "1" ++ 13 ∷ []; payload = codes "g" }
    ∷ []

abbrev pub last_header : Bytes
last_header = codes "0" ++ 13 ∷ []

abbrev pub trailers : Bytes
trailers = codes "x-amz-checksum-crc32:AA" ++ 13 ∷ 10 ∷ 13 ∷ 10 ∷ []

pub last_header-IsHeader : IsHeader last_header 0
unfolding header_size trim_newline before trim_space leading trim_end all_space parse_int hex_digits
last_header-IsHeader = record { one_line = (refl, (refl, tt)); sized = refl }

pub dog_frames-IsFramed : IsFramed dog_frames
unfolding header_size trim_newline before trim_space leading trim_end all_space parse_int hex_digits
dog_frames-IsFramed = (
  omega arith,
  record { one_line = (refl, (refl, (refl, (refl, (refl, (refl, tt)))))); sized = refl },
  (omega arith, record { one_line = (refl, (refl, tt)); sized = refl }, tt),
)

decode_total_example :
    decode 1 (λ n. 0) (wire dog_frames (last_header ++ 10 ∷ trailers)) true ≢ none
decode_total_example = decode_total 1 (λ n. 0) (wire dog_frames (last_header ++ 10 ∷ trailers)) true

-- The third chunk announces 16 bytes, of which two come.
long-IsHeader : IsHeader (codes "10" ++ 13 ∷ []) 16
unfolding header_size trim_newline before trim_space leading trim_end all_space parse_int hex_digits
long-IsHeader = record { one_line = (refl, (refl, (refl, tt))); sized = refl }

decode-cut_example :
    contents (decode 1 (λ n. 0) (wire dog_frames (codes "10" ++ 13 ∷ 10 ∷ codes "xx")) false)
    ≡ some (codes "dogxx", false)
decode-cut_example =
    decode-cut 1 (λ n. 0) (codes "10" ++ 13 ∷ []) (codes "xx") 13 long-IsHeader dog_frames
      dog_frames-IsFramed
