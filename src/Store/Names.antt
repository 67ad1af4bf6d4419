-- ===== src/Store/Names.antt =====
-- The names that pkg/store accepts: `validBucketName` of store.go and `validObjectName` of bucket.go.
use objectstorage.Prelude.{ℕ, Bool, false, not, ◌&&◌, ◌||◌, leb, ◌==◌, [], ◌∷◌, length}
use objectstorage.Prelude.Bytes.{Bytes, codes, bytes_eq}

-- `[a-z0-9]`
abbrev pub is_alnum : ℕ → Bool
is_alnum c = leb b'a' c && leb c b'z' || leb b'0' c && leb c b'9'

-- `[a-z0-9._-]`
abbrev pub is_name_byte : ℕ → Bool
is_name_byte c = is_alnum c || c == b'.' || c == b'_' || c == b'-'

-- `[a-z0-9._-]*[a-z0-9]$`: what follows the first byte.
unfoldable pub ends_well : Bytes → Bool
ends_well [] = false
ends_well (c ∷ []) = is_alnum c
ends_well (c ∷ d ∷ s) = is_name_byte c && ends_well (d ∷ s)

-- `^[a-z0-9][a-z0-9._-]{1,61}[a-z0-9]$`
unfoldable pub valid_bucket_name : Bytes → Bool
unfolding ends_well
valid_bucket_name [] = false
valid_bucket_name (c ∷ s) = is_alnum c && leb 2 (length s) && leb (length s) 62 && ends_well s

-- `strings.ContainsAny(name, "\x00\n\r")`
unfoldable pub has_control : Bytes → Bool
has_control [] = false
has_control (c ∷ s) = c == 0 || c == 10 || c == 13 || has_control s

unfoldable pub valid_object_name : Bytes → Bool
unfolding has_control
valid_object_name name =
    not (bytes_eq name [])
    && not (bytes_eq name (codes "."))
    && not (bytes_eq name (codes ".."))
    && not (has_control name)
    && leb (length name) 1024
