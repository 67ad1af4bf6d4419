-- ===== src/Http/Text.antt =====
-- The functions on texts of strings, strconv, encoding/hex and net/url that the handlers call.
use objectstorage.Prelude.{
  ℕ, zero, suc, ◌+◌, ◌-◌, ◌*◌, ◌/◌, ◌%◌, ◌^◌, Option, none, some, Bool, true, false, ◌&&◌, ◌||◌,
  if◌then◌else◌, leb, ltb, ◌==◌, List, [], ◌∷◌, ◌++◌, drop, length,
}
use objectstorage.Prelude.Bytes.{Bytes, bytes_eq, has_prefix}
use objectstorage.Prelude.Int.{ℤ, pos, negsuc}

-- `strings.ToLower` of ASCII
abbrev pub lower_byte : ℕ → ℕ
lower_byte c = if leb b'A' c && leb c b'Z' then c + 32 else c

unfoldable pub to_lower : Bytes → Bytes
to_lower [] = []
to_lower (c ∷ s) = lower_byte c ∷ to_lower s

-- `strings.EqualFold(s, t)` where `t` is ASCII without k and s
unfoldable pub equal_fold : Bytes → Bytes → Bool
unfolding to_lower bytes_eq
equal_fold s t = bytes_eq (to_lower s) (to_lower t)

-- `strings.TrimPrefix`
unfoldable pub trim_prefix : Bytes → Bytes → Bytes
trim_prefix s prefix = if has_prefix s prefix then drop (length prefix) s else s

-- `strings.HasSuffix`
unfoldable pub has_suffix : Bytes → Bytes → Bool
has_suffix s suffix =
    leb (length suffix) (length s) && bytes_eq (drop (length s - length suffix) s) suffix

-- `strings.Contains`
unfoldable pub contains : Bytes → Bytes → Bool
contains [] t = bytes_eq t []
contains (c ∷ s) t = has_prefix (c ∷ s) t || contains s t

-- `strings.Trim` of a cut set of one byte
unfoldable pub trim_left : ℕ → Bytes → Bytes
trim_left b [] = []
trim_left b (c ∷ s) = let rest = trim_left b s in if c == b then rest else c ∷ s

abbrev is_nil : Bytes → Bool
is_nil [] = true
is_nil (c ∷ s) = false

unfoldable pub trim_right : ℕ → Bytes → Bytes
trim_right b [] = []
trim_right b (c ∷ s) = let rest = trim_right b s in if is_nil rest && c == b then [] else c ∷ rest

unfoldable pub trim : ℕ → Bytes → Bytes
trim b s = trim_right b (trim_left b s)

-- `strings.Split` by one byte
abbrev into_first : ℕ → List Bytes → List Bytes
into_first c [] = (c ∷ []) ∷ []
into_first c (w ∷ ws) = (c ∷ w) ∷ ws

unfoldable pub split_on : ℕ → Bytes → List Bytes
split_on b [] = [] ∷ []
split_on b (c ∷ s) = let rest = split_on b s in if c == b then [] ∷ rest else into_first c rest

-- `strings.Join` with one byte
unfoldable pub join_with : ℕ → List Bytes → Bytes
join_with b [] = []
join_with b (w ∷ []) = w
join_with b (w ∷ v ∷ ws) = w ++ b ∷ join_with b (v ∷ ws)

-- `strings.Cut` at one byte
abbrev cut_after : ℕ → Option (Bytes × Bytes) → Option (Bytes × Bytes)
cut_after c none = none
cut_after c (some (before, after)) = some (c ∷ before, after)

unfoldable pub cut_at : ℕ → Bytes → Option (Bytes × Bytes)
cut_at b [] = none
cut_at b (c ∷ s) = let rest = cut_at b s in if c == b then some ([], s) else cut_after c rest

abbrev pub unhex : ℕ → Option ℕ
unhex c =
    if leb b'0' c && leb c b'9'
    then some (c - b'0')
    else if leb b'a' c && leb c b'f'
    then some (c - b'a' + 10)
    else if leb b'A' c && leb c b'F'
    then some (c - b'A' + 10)
    else none

abbrev unescaped : Option ℕ → Option ℕ → Option Bytes → Option Bytes
unescaped (some a) (some b) (some s) = some ((a * 16 + b) ∷ s)
unescaped _ _ _ = none

abbrev kept : ℕ → Option Bytes → Option Bytes
kept c none = none
kept c (some s) = some (c ∷ s)

-- `url.PathUnescape`: a `%` must stand before two hexadecimal digits.
unfoldable pub path_unescape : Bytes → Option Bytes
path_unescape [] = some []
path_unescape (c ∷ []) = if c == b'%' then none else some (c ∷ [])
path_unescape (c ∷ d ∷ []) =
    let rest = path_unescape (d ∷ []) in if c == b'%' then none else kept c rest
path_unescape (c ∷ d ∷ e ∷ s) =
    let after = path_unescape s in
    let rest = path_unescape (d ∷ e ∷ s) in
    if c == b'%' then unescaped (unhex d) (unhex e) after else kept c rest

abbrev pub hex_digit : ℕ → ℕ
hex_digit n = if ltb n 10 then b'0' + n else b'a' + (n - 10)

abbrev upper_digit : ℕ → ℕ
upper_digit n = if ltb n 10 then b'0' + n else b'A' + (n - 10)

-- `hex.EncodeToString`
unfoldable pub hex_encode : Bytes → Bytes
hex_encode [] = []
hex_encode (c ∷ s) = hex_digit (c / 16) ∷ hex_digit (c % 16) ∷ hex_encode s

abbrev is_unreserved : ℕ → Bool
is_unreserved c =
    leb b'a' c && leb c b'z'
    || leb b'A' c && leb c b'Z'
    || leb b'0' c && leb c b'9'
    || c == b'-'
    || c == b'_'
    || c == b'.'
    || c == b'~'

-- `url.QueryEscape`
unfoldable pub query_escape : Bytes → Bytes
query_escape [] = []
query_escape (c ∷ s) =
    let rest = query_escape s in
    if is_unreserved c
    then c ∷ rest
    else if c == 32
    then b'+' ∷ rest
    else b'%' ∷ upper_digit (c / 16) ∷ upper_digit (c % 16) ∷ rest

abbrev pub more_digits : Option ℕ → ℕ → Option ℕ
more_digits none c = none
more_digits (some n) c = if leb b'0' c && leb c b'9' then some (n * 10 + (c - b'0')) else none

unfoldable pub decimal : Option ℕ → Bytes → Option ℕ
decimal n [] = n
decimal n (c ∷ s) = decimal (more_digits n c) s

abbrev pub bounded_pos : Option ℕ → Option ℤ
bounded_pos none = none
bounded_pos (some n) = if ltb n (2 ^ 63) then some (pos n) else none

abbrev pub minus : ℕ → ℤ
minus zero = pos 0
minus (suc n) = negsuc n

abbrev pub bounded_neg : Option ℕ → Option ℤ
bounded_neg none = none
bounded_neg (some n) = if leb n (2 ^ 63) then some (minus n) else none

abbrev pub some_digits : Bytes → Option ℕ
some_digits [] = none
some_digits (c ∷ s) = decimal (some 0) (c ∷ s)

-- `strconv.Atoi` and `strconv.ParseInt(s, 10, 64)`
unfoldable pub atoi : Bytes → Option ℤ
unfolding decimal
atoi [] = none
atoi (c ∷ s) =
    if c == b'-'
    then bounded_neg (some_digits s)
    else if c == b'+'
    then bounded_pos (some_digits s)
    else bounded_pos (some_digits (c ∷ s))
