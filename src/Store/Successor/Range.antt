-- ===== src/Store/Successor/Range.antt =====
-- The names between a prefix and its successor: those with the prefix, if the byte that is raised is
-- ASCII, and others too if it is not.
use objectstorage.Prelude.{
  ℕ, zero, suc, ◌+◌, ◌<◌, ◌≤◌, Bool, true, false, not, ◌&&◌, ◌||◌, if◌then◌else◌, ltb, ◌==◌, inl,
  inr, Bool-cases, [], ◌∷◌, ◌++◌, ◌≡◌, refl, sym, arith, length, take,
}
use objectstorage.Prelude.Bytes.{Bytes, bytes_eq, bytes_lt, has_prefix}
use objectstorage.Store.Successor.{in_range, rune, byte_at, successor_loop, prefix_successor}

abbrev pub prepend : ℕ → Bytes → Bytes → Bytes
prepend c [] other = other
prepend c (x ∷ xs) other = c ∷ x ∷ xs

prepend-rune :
    (c r : ℕ) (front other : Bytes) → prepend c (front ++ rune r) other ≡ c ∷ (front ++ rune r)
prepend-rune c r [] other = ground arith
prepend-rune c r (x ∷ front) other = refl

successor_loop-cons :
    (i c : ℕ) (s : Bytes)
    → successor_loop (c ∷ s) (suc i)
      ≡ prepend c (successor_loop s i) (if c == 255 then [] else rune (c + 1))
unfolding successor_loop
successor_loop-cons zero c s = ground arith
successor_loop-cons (suc i) c s = elim (Bool-cases (byte_at s i == 255)) [
  | inl p ↦ rw p (successor_loop-cons i c s)
  | inr p ↦ rw p (sym (prepend-rune c (byte_at s i + 1) (take i s) _))
]

pub successor-cons :
    (c : ℕ) (s : Bytes)
    → prefix_successor (c ∷ s)
      ≡ prepend c (prefix_successor s) (if c == 255 then [] else rune (c + 1))
unfolding prefix_successor
successor-cons c s = successor_loop-cons (length s) c s

-- The byte that `prefix_successor` raises, the last that is not 0xff, is ASCII, and so is the next.
abbrev pub raises_ascii : Bytes → Bool
raises_ascii [] = true
raises_ascii (c ∷ s) =
    raises_ascii s && (not (bytes_eq (prefix_successor s) []) || c == 255 || ltb c 127)

abbrev pub IsByte : ℕ → Type 0
IsByte c = c < 256

abbrev pub IsBytes : Bytes → Type 0
IsBytes [] = Unit
IsBytes (c ∷ s) = IsByte c × IsBytes s

pub not_lt_nil : (xs : Bytes) → bytes_lt xs [] ≡ false
unfolding bytes_lt
not_lt_nil [] = refl
not_lt_nil (x ∷ xs) = refl

range-cons :
    (c x : ℕ) (s xs next : Bytes)
    → (not (bytes_eq next []) || c == 255 || ltb c 127) ≡ true
    → x < 256
    → in_range s next xs ≡ has_prefix xs s
    → in_range (c ∷ s) (prepend c next (if c == 255 then [] else rune (c + 1))) (x ∷ xs)
      ≡ has_prefix (x ∷ xs) (c ∷ s)
unfolding in_range bytes_lt has_prefix bytes_eq
range-cons c x s xs [] t b h = ground (arith, h, not_lt_nil xs)
range-cons c x s xs (y ∷ ys) t b h = ground (arith, h)

range-nil : (c : ℕ) (s end : Bytes) → in_range (c ∷ s) end [] ≡ has_prefix [] (c ∷ s)
unfolding in_range bytes_lt has_prefix
range-nil c s end = refl

-- Where the byte that is raised and the next are ASCII, the names of bytes from the prefix up to its
-- successor are exactly those that have the prefix.
pub in_range-prefix_successor :
    (prefix name : Bytes)
    → raises_ascii prefix ≡ true
    → IsBytes name
    → in_range prefix (prefix_successor prefix) name ≡ has_prefix name prefix
in_range-prefix_successor [] name t b =
    unfold in_range has_prefix prefix_successor bytes_eq successor_loop in
    ground (arith, not_lt_nil name)
in_range-prefix_successor (c ∷ s) [] t b = range-nil c s (prefix_successor (c ∷ s))
in_range-prefix_successor (c ∷ s) (x ∷ xs) t (bx, bs) = rw (successor-cons c s) (
    range-cons c x s xs (prefix_successor s) (ground arith) bx
      (in_range-prefix_successor s xs (ground arith) bs))

pub prepend_some :
    (x : ℕ) (next other : Bytes) → bytes_eq next [] ≡ false → prepend x next other ≡ x ∷ next
unfolding bytes_eq
prepend_some x [] other h = cc
prepend_some x (y ∷ ys) other h = refl

-- The successor is not empty where the last byte can be raised.
successor_some :
    (prefix : Bytes) (c : ℕ) → c < 255 → bytes_eq (prefix_successor (prefix ++ c ∷ [])) [] ≡ false
successor_some [] c h = unfold prefix_successor bytes_eq successor_loop in ground arith
successor_some (x ∷ prefix) c h =
    let ih = successor_some prefix c h in
    rw
      (
        successor-cons x (prefix ++ c ∷ []),
        prepend_some x _ (if x == 255 then [] else rune (x + 1)) ih,
      )
      (unfold bytes_eq in refl)

in_range_same :
    (x : ℕ) (p next name : Bytes)
    → bytes_eq next [] ≡ false
    → in_range p next name ≡ true
    → in_range (x ∷ p) (x ∷ next) (x ∷ name) ≡ true
unfolding in_range bytes_lt bytes_eq
in_range_same x p next name e h = ground (arith, e, h)

has_prefix_same : (x : ℕ) (p name : Bytes) → has_prefix (x ∷ name) (x ∷ p) ≡ has_prefix name p
unfolding has_prefix
has_prefix_same x p name = ground arith

-- For a prefix whose last byte is from 127 on, the bound lies too high: with a greater byte below 194
-- in the place of the last, a name is in the range though it does not have the prefix.
pub in_range-foreign :
    (prefix rest : Bytes) (c d : ℕ)
    → 127 ≤ c
    → c < d
    → d < 194
    → (in_range (prefix ++ c ∷ []) (prefix_successor (prefix ++ c ∷ [])) (prefix ++ d ∷ rest)
        ≡ true)
      × (has_prefix (prefix ++ d ∷ rest) (prefix ++ c ∷ []) ≡ false)
in_range-foreign [] rest c d lo mid hi =
    unfold in_range has_prefix prefix_successor bytes_eq bytes_lt successor_loop in ground arith
in_range-foreign (x ∷ prefix) rest c d lo mid hi =
    let some_next = successor_some prefix c (omega arith) in
    let (ranged, lacks) = in_range-foreign prefix rest c d lo mid hi in
    (
      rw
          (
            successor-cons x (prefix ++ c ∷ []),
            prepend_some x _ (if x == 255 then [] else rune (x + 1)) some_next,
          )
          (in_range_same x (prefix ++ c ∷ []) _ (prefix ++ d ∷ rest) some_next ranged),
      rw (has_prefix_same x) lacks,
    )
