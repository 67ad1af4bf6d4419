-- ===== src/S3/Text.antt =====
-- What pkg/s3/awschunked.go uses of the standard library: `strings.TrimRight`, `strings.IndexByte`,
-- `strings.TrimSpace` and `strconv.ParseInt` in base 16.
use objectstorage.Prelude.{
  ℕ, zero, suc, ◌+◌, ◌-◌, ◌*◌, ◌^◌, Option, none, some, Bool, true, false, ◌&&◌, ◌||◌,
  if◌then◌else◌, leb, ltb, ◌==◌, [], ◌∷◌, drop,
}
use objectstorage.Prelude.Bytes.{Bytes}
use objectstorage.Prelude.Int.{ℤ, pos, negsuc}

abbrev pub is_newline : ℕ → Bool
is_newline c = c == 13 || c == 10

abbrev is_nil : Bytes → Bool
is_nil [] = true
is_nil (c ∷ s) = false

-- `strings.TrimRight(s, "\r\n")`
unfoldable pub trim_newline : Bytes → Bytes
trim_newline [] = []
trim_newline (c ∷ s) =
    let rest = trim_newline s in if is_nil rest && is_newline c then [] else c ∷ rest

-- `s[:idx]` where `idx` is the index of the byte, the whole text if there is none
unfoldable pub before : ℕ → Bytes → Bytes
before b [] = []
before b (c ∷ s) = let rest = before b s in if c == b then [] else c ∷ rest

-- How far the UTF-8 form of a Unicode space has been read; `between` stands between two of them.
pub data Pending : Type 0 where
  between after_c2 after_e1 after_e1_9a after_e2 after_e2_80 after_e2_81 after_e3 after_e3_80 :
      Pending

abbrev pub at_space : ℕ → Option Pending
at_space c =
    if leb 9 c && leb c 13 || c == 32
    then some between
    else if c == 194
    then some after_c2
    else if c == 225
    then some after_e1
    else if c == 226
    then some after_e2
    else if c == 227
    then some after_e3
    else none

abbrev when : Bool → Pending → Option Pending
when true p = some p
when false p = none

-- U+0085, U+00A0, U+1680, U+2000 to U+200A, U+2028, U+2029, U+202F, U+205F, U+3000.
abbrev pub next_space : Pending → ℕ → Option Pending
next_space between c = at_space c
next_space after_c2 c = when (c == 133 || c == 160) between
next_space after_e1 c = when (c == 154) after_e1_9a
next_space after_e1_9a c = when (c == 128) between
next_space after_e2 c = if c == 128 then some after_e2_80 else when (c == 129) after_e2_81
next_space after_e2_80 c = when (leb 128 c && leb c 138 || c == 168 || c == 169 || c == 175) between
next_space after_e2_81 c = when (c == 159) between
next_space after_e3 c = when (c == 128) after_e3_80
next_space after_e3_80 c = when (c == 128) between

abbrev pub is_between : Pending → Bool
is_between between = true
is_between _ = false

-- How many bytes of Unicode spaces the text begins with: `done` of them before `seen` have been found.
unfoldable pub leading : Option Pending → ℕ → ℕ → Bytes → ℕ
leading none seen done s = done
leading (some p) seen done [] = if is_between p then seen else done
leading (some p) seen done (c ∷ s) =
    leading (next_space p c) (seen + 1) (if is_between p then seen else done) s

-- The text is Unicode spaces and no more.
unfoldable pub all_space : Option Pending → Bytes → Bool
all_space none s = false
all_space (some p) [] = is_between p
all_space (some p) (c ∷ s) = all_space (next_space p c) s

unfoldable pub trim_end : Bytes → Bytes
trim_end [] = []
trim_end (c ∷ s) =
    let rest = trim_end s in if all_space (some between) (c ∷ s) then [] else c ∷ rest

-- `strings.TrimSpace`
unfoldable pub trim_space : Bytes → Bytes
trim_space s = trim_end (drop (leading (some between) 0 0 s) s)

-- The value of a hexadecimal digit, in either case.
abbrev pub hex_value : ℕ → Option ℕ
hex_value c =
    if leb b'0' c && leb c b'9'
    then some (c - b'0')
    else if leb b'a' c && leb c b'f'
    then some (c - b'a' + 10)
    else if leb b'A' c && leb c b'F'
    then some (c - b'A' + 10)
    else none

abbrev pub add_digit : ℕ → Option ℕ → Option ℕ
add_digit n none = none
add_digit n (some d) = some (n * 16 + d)

unfoldable pub hex_digits : Option ℕ → Bytes → Option ℕ
hex_digits none s = none
hex_digits (some n) [] = some n
hex_digits (some n) (c ∷ s) = hex_digits (add_digit n (hex_value c)) s

-- The number must be below `limit`.
abbrev pub bounded : ℕ → Option ℕ → Option ℕ
bounded limit none = none
bounded limit (some n) = if ltb n limit then some n else none

abbrev pub magnitude : ℕ → Bytes → Option ℕ
magnitude limit [] = none
magnitude limit (c ∷ s) = bounded limit (hex_digits (some 0) (c ∷ s))

abbrev pub positive : Option ℕ → Option ℤ
positive none = none
positive (some n) = some (pos n)

abbrev minus : ℕ → ℤ
minus zero = pos 0
minus (suc n) = negsuc n

abbrev pub negative : Option ℕ → Option ℤ
negative none = none
negative (some n) = some (minus n)

-- `strconv.ParseInt(s, 16, 64)`, `none` for its two errors
unfoldable pub parse_int : Bytes → Option ℤ
parse_int [] = none
parse_int (c ∷ s) =
    if c == b'-'
    then negative (magnitude (2 ^ 63 + 1) s)
    else if c == b'+'
    then positive (magnitude (2 ^ 63) s)
    else positive (magnitude (2 ^ 63) (c ∷ s))
