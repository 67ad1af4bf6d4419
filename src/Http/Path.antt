-- ===== src/Http/Path.antt =====
-- `splitPath` of pkg/s3/server.go, of which pkg/gcs/server.go has a copy.
use objectstorage.Prelude.{
  ℕ, Option, none, some, false, List, [], ◌∷◌, ◌++◌, ◌≡◌, refl, ap, ◌∙◌, arith, ◌==◌,
}
use objectstorage.Prelude.Bytes.{Bytes}
use objectstorage.Http.Text.{trim, trim_left, trim_right, split_on, join_with, path_unescape}

abbrev unescaped_segment : Option Bytes → Option (List Bytes) → Option (List Bytes)
unescaped_segment none rest = none
unescaped_segment (some s) none = none
unescaped_segment (some s) (some segs) = some (s ∷ segs)

unfoldable pub unescape_all : List Bytes → Option (List Bytes)
unescape_all [] = some []
unescape_all (p ∷ parts) = unescaped_segment (path_unescape p) (unescape_all parts)

-- The slashes at both ends go; `none` is an error of the escaping.
unfoldable pub split_trimmed : Bytes → Option (List Bytes)
split_trimmed [] = some []
split_trimmed (c ∷ s) = unescape_all (split_on b'/' (c ∷ s))

unfoldable pub split_path : Bytes → Option (List Bytes)
split_path escaped_path = split_trimmed (trim b'/' escaped_path)

-- The trimming of slashes.
trim_right-append : (b : ℕ) (s : Bytes) → trim_right b (s ++ b ∷ []) ≡ trim_right b s
unfolding trim_right
trim_right-append b [] = ground arith
trim_right-append b (c ∷ s) = ground (arith, trim_right-append b s)

trim_left-append :
    (b : ℕ) (s : Bytes) → trim_right b (trim_left b (s ++ b ∷ [])) ≡ trim_right b (trim_left b s)
unfolding trim_left
trim_left-append b [] = ground arith
trim_left-append b (c ∷ s) = ground (arith, trim_left-append b s, trim_right-append b (c ∷ s))

-- A slash at the end of a path does not show: the key of an object whose name ends in one is that of
-- another object.
pub split_path-slash : (p : Bytes) → split_path (p ++ b'/' ∷ []) ≡ split_path p
unfolding split_path trim
split_path-slash p = ap split_trimmed (trim_left-append b'/' p)

-- No slash and no percent sign: a segment that no escaping has changed.
abbrev pub IsPlainSegment : Bytes → Type 0
IsPlainSegment [] = Unit {0}
IsPlainSegment (c ∷ s) = ((c == b'/') ≡ false) × ((c == b'%') ≡ false) × IsPlainSegment s

abbrev pub ArePlain : List Bytes → Type 0
ArePlain [] = Unit {0}
ArePlain (w ∷ ws) = IsPlainSegment w × ArePlain ws

abbrev pub BeginsOther : Bytes → Type 0
BeginsOther [] = ⊥
BeginsOther (c ∷ s) = (c == b'/') ≡ false

abbrev pub EndsOther : Bytes → Type 0
EndsOther [] = ⊥
EndsOther (c ∷ []) = (c == b'/') ≡ false
EndsOther (c ∷ d ∷ s) = EndsOther (d ∷ s)

trim_right-EndsOther : (s : Bytes) → EndsOther s → trim_right b'/' s ≡ s
unfolding trim_right
trim_right-EndsOther [] h = absurd h
trim_right-EndsOther (c ∷ []) h = ground (arith, h)
trim_right-EndsOther (c ∷ d ∷ s) h = simp (trim_right-EndsOther (d ∷ s) h) refl

trim-slash : (s : Bytes) → BeginsOther s → EndsOther s → trim b'/' (b'/' ∷ s) ≡ s
unfolding trim trim_left
trim-slash [] h k = absurd h
trim-slash (c ∷ s) h k = ground (arith, h, trim_right-EndsOther (c ∷ s) k)

path_unescape-plain : (w : Bytes) → IsPlainSegment w → path_unescape w ≡ some w
unfolding path_unescape
path_unescape-plain [] h = refl
path_unescape-plain (c ∷ []) h = ground (arith, h)
path_unescape-plain (c ∷ d ∷ []) h = ground (arith, h)
path_unescape-plain (c ∷ d ∷ e ∷ s) (_, p, h) = simp (p, path_unescape-plain (d ∷ e ∷ s) h) refl

unescape_all-plain : (ws : List Bytes) → ArePlain ws → unescape_all ws ≡ some ws
unfolding unescape_all
unescape_all-plain [] h = refl
unescape_all-plain (w ∷ ws) (p, h) = simp (path_unescape-plain w p, unescape_all-plain ws h) refl

split_on-one : (w : Bytes) → IsPlainSegment w → split_on b'/' w ≡ w ∷ []
unfolding split_on
split_on-one [] h = refl
split_on-one (c ∷ w) (p, _, h) = simp (p, split_on-one w h) refl

split_on-append :
    (w s : Bytes) → IsPlainSegment w → split_on b'/' (w ++ b'/' ∷ s) ≡ w ∷ split_on b'/' s
unfolding split_on
split_on-append [] s h = refl
split_on-append (c ∷ w) s (p, _, h) = simp (p, split_on-append w s h) refl

split_on-join_with :
    (w : Bytes) (ws : List Bytes)
    → ArePlain (w ∷ ws)
    → split_on b'/' (join_with b'/' (w ∷ ws)) ≡ w ∷ ws
unfolding join_with
split_on-join_with w [] (p, h) = split_on-one w p
split_on-join_with w (v ∷ ws) (p, h) =
    split_on-append w (join_with b'/' (v ∷ ws)) p ∙ ap (λ l. w ∷ l) (split_on-join_with v ws h)

split_trimmed-some : (s : Bytes) → BeginsOther s → split_trimmed s ≡ unescape_all (split_on b'/' s)
unfolding split_trimmed
split_trimmed-some [] h = absurd h
split_trimmed-some (c ∷ s) h = refl

-- The segments of a path come back, empty ones inside included, where they have nothing that is escaped
-- and the path, behind its first slash, neither begins nor ends in a slash.
pub split_path-join_with :
    (w : Bytes) (ws : List Bytes)
    → ArePlain (w ∷ ws)
    → BeginsOther (join_with b'/' (w ∷ ws))
    → EndsOther (join_with b'/' (w ∷ ws))
    → split_path (b'/' ∷ join_with b'/' (w ∷ ws)) ≡ some (w ∷ ws)
unfolding split_path
split_path-join_with w ws plain h k =
    let s = join_with b'/' (w ∷ ws) in
    ap split_trimmed (trim-slash s h k)
    ∙ split_trimmed-some s h
    ∙ ap unescape_all (split_on-join_with w ws plain)
    ∙ unescape_all-plain (w ∷ ws) plain
