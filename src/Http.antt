-- ===== src/Http.antt =====
-- What pkg/s3 and pkg/gcs use of net/http, net/url, strings, strconv and encoding/hex: requests, the
-- paths and the numbers in them, and the reads of a copy.
pub mod Text
pub mod Path
pub mod Print
use objectstorage.Prelude.{
  ℕ, zero, suc, ◌+◌, Option, none, some, Bool, true, false, if◌then◌else◌, ltb, List, [], ◌∷◌, take,
  drop, length, ◌≢◌, refl,
}
use objectstorage.Prelude.Bytes.{Bytes, codes, bytes_Eq}
use objectstorage.Prelude.Dict.{Dict, get, put}

pub data Method : Type 0 where
  get_method head_method put_method post_method delete_method other_method : Method

-- The names of headers are in lower case; of a parameter of the query, the first value counts.
pub record Request : Type 0 where
  pub method : Method
  pub escaped_path : Bytes
  pub query : Dict Bytes Bytes
  pub headers : Dict Bytes (List Bytes)
  pub body : Bytes
  pub broken : Bool

abbrev pub or_empty : Option Bytes → Bytes
or_empty none = []
or_empty (some v) = v

abbrev is_there : Option Bytes → Bool
is_there none = false
is_there (some v) = true

abbrev first : Option (List Bytes) → Bytes
first none = []
first (some []) = []
first (some (v ∷ vs)) = v

-- `r.URL.Query().Get(name)` and `Has(name)`
unfoldable pub query_get : Bytes → Request → Bytes
query_get name r = or_empty (get name r.query)

unfoldable pub query_has : Bytes → Request → Bool
query_has name r = is_there (get name r.query)

-- `r.Header.Get(name)`
unfoldable pub header_get : Bytes → Request → Bytes
header_get name r = first (get name r.headers)

-- `io.Copy` from a body as it is, with a buffer of `size + 1` bytes: the read with `fuel` left gives up
-- to `pick fuel + 1` bytes. The length of the body is fuel enough.
unfoldable pub raw_pieces : ℕ → ℕ → (ℕ → ℕ) → Bytes → List Bytes
raw_pieces zero size pick s = []
raw_pieces (suc fuel) size pick [] = []
raw_pieces (suc fuel) size pick (c ∷ s) =
    let n = if ltb size (pick fuel) then size else pick fuel in
    (c ∷ take n s) ∷ raw_pieces fuel size pick (drop n s)

unfoldable pub pieces_of : ℕ → (ℕ → ℕ) → Bytes → List Bytes
pieces_of size pick s = raw_pieces (length s) size pick s

-- What is in an option that is not empty.
abbrev pub from_some {ℓ} : {A : Type ℓ} (o : Option A) → o ≢ none → A
from_some none h = absurd (h refl)
from_some (some a) h = a
