-- ===== src/Store/Types.antt =====
-- pkg/store/types.go: the errors, the object and bucket descriptions, the options of a write. An
-- `error` result is a `Result`; the standard library's hashes and JSON are the fields of `Env`.
use objectstorage.Prelude.{ℕ, List, Option, Bool, true, false}
use objectstorage.Prelude.Bytes.{Bytes}
use objectstorage.Prelude.Dict.{Dict}
use objectstorage.Prelude.Int.{ℤ}

-- The sentinel errors, and the errors that have no sentinel: of a call of the operating system or
-- of the database, of a writer that is used after its end, of a row whose JSON is corrupt; and a
-- run-time panic, of a slice expression that is out of range.
pub data Error : Type 0 where
  bucket_not_found bucket_exists bucket_not_empty object_not_found : Error
  precondition_failed invalid_name : Error
  call_failed finished corrupt_metadata panicked : Error

-- What a Go function returns besides its error, or the error.
pub data Result {ℓ} (A : Type ℓ) : Type ℓ where
  err : Error → Result A
  ok : A → Result A

infixl 5 ◌>>=◌ ◌>>◌
abbrev pub ◌>>=◌ {κ ℓ} : {A : Type κ} {B : Type ℓ} → Result A → (A → Result B) → Result B
err failure >>= next = err failure
ok found >>= next = next found

-- An action that returns an error only.
abbrev pub ◌>>◌ {κ} : {A : Type κ} → Result (Unit {0}) → Result A → Result A
action >> next = action >>= (λ done. next)

-- `if err != nil { return err }` after a call: does the call fail?
abbrev pub unless : Bool → Error → Result (Unit {0})
unless true e = err e
unless false e = ok tt

-- A `map[string]string`; the nil map and the empty one are alike.
abbrev pub Metadata : Type 0
Metadata = Dict Bytes Bytes

-- What the code calls of the standard library: the digests of a content, and JSON for metadata.
pub record Env : Type 0 where
  pub sha256_hex : Bytes → Bytes
  pub md5_sum : Bytes → Bytes
  pub crc32c_sum : Bytes → ℕ
  pub marshal : Metadata → Option Bytes
  pub unmarshal : Bytes → Option Metadata

-- A `time.Time` is its nanoseconds since 1970.
pub record BucketInfo : Type 0 where
  pub name : Bytes
  pub created : ℕ
  pub metageneration : ℤ

pub record ObjectInfo : Type 0 where
  pub bucket : Bytes
  pub name : Bytes
  pub generation : ℤ
  pub metageneration : ℤ
  pub size : ℕ
  pub sha256 : Bytes
  pub md5 : Bytes
  pub crc32c : ℕ
  pub content_type : Bytes
  pub metadata : Metadata
  pub created : ℕ
  pub updated : ℕ

-- A pointer that may be nil is an `Option`.
pub record Conditions : Type 0 where
  pub generation_match : Option ℤ
  pub generation_not_match : Option ℤ
  pub metageneration_match : Option ℤ
  pub metageneration_not_match : Option ℤ

pub record PutOptions : Type 0 where
  pub content_type : Bytes
  pub metadata : Metadata
  pub conditions : Conditions

pub record ListRequest : Type 0 where
  pub prefix : Bytes
  pub delimiter : Bytes
  pub page_token : Bytes
  pub max_results : ℤ

pub record ListResult : Type 0 where
  pub objects : List ObjectInfo
  pub prefixes : List Bytes
  pub next_page_token : Bytes
