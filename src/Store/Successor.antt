-- ===== src/Store/Successor.antt =====
-- `prefixSuccessor`, which pkg/store/bucket.go and pkg/s3/objects.go both declare: an upper bound of
-- the strings with a prefix.
pub mod Range
use objectstorage.Prelude.{
  ℕ, zero, suc, ◌+◌, ◌-◌, ◌/◌, ◌%◌, ◌<◌, ◌≤◌, Option, none, some, Bool, true, false, not, ◌&&◌,
  ◌||◌, if◌then◌else◌, ltb, ◌==◌, List, [], ◌∷◌, ◌++◌, ◌≡◌, refl, arith, length, take,
}
use objectstorage.Prelude.Bytes.{Bytes, bytes_eq, bytes_lt, has_prefix}

-- Go's `string(r)` of an integer below 256: the UTF-8 form of that code point.
abbrev pub rune : ℕ → Bytes
rune r = if ltb r 128 then r ∷ [] else (192 + r / 64) ∷ (128 + r % 64) ∷ []

abbrev pub byte_at : Bytes → ℕ → ℕ
byte_at [] i = 0
byte_at (c ∷ s) zero = c
byte_at (c ∷ s) (suc i) = byte_at s i

-- The loop, `i` rounds before its end.
unfoldable pub successor_loop : Bytes → ℕ → Bytes
successor_loop prefix zero = []
successor_loop prefix (suc i) =
    let rest = successor_loop prefix i in
    if not (byte_at prefix i == 255) then take i prefix ++ rune (byte_at prefix i + 1) else rest

unfoldable pub prefix_successor : Bytes → Bytes
unfolding successor_loop
prefix_successor prefix = successor_loop prefix (length prefix)

-- `name >= ? AND name < ?`, the second only if `end` is not empty
unfoldable pub in_range : Bytes → Bytes → Bytes → Bool
in_range next end name = not (bytes_lt name next) && (bytes_eq end [] || bytes_lt name end)
