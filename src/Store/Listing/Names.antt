-- ===== src/Store/Listing/Names.antt =====
-- Facts on names that the listing rests on: common prefixes, and the successors of those.
use objectstorage.Prelude.{
  ℕ, zero, suc, ◌+◌, ◌≤◌, Option, none, some, Bool, true, false, not, if◌then◌else◌, ltb, ◌==◌, [],
  ◌∷◌, ◌++◌, ◌≡◌, refl, ap, arith, length, take, drop, inl, inr, Bool-cases,
}
use objectstorage.Prelude.Bytes.{Bytes, bytes_eq, bytes_lt, has_prefix, index}
use objectstorage.Store.Successor.{rune, successor_loop, prefix_successor}
use objectstorage.Store.Successor.Range.{raises_ascii, successor-cons, prepend_some, not_lt_nil}
use objectstorage.Store.Listing.{common_prefix}

-- The last byte is ASCII and can be raised to another: of a delimiter such as "/".
abbrev pub ends_ascii : Bytes → Bool
ends_ascii [] = false
ends_ascii (c ∷ []) = ltb c 127
ends_ascii (c ∷ d ∷ s) = ends_ascii (d ∷ s)

has_prefix-length : (s p : Bytes) → has_prefix s p ≡ true → length p ≤ length s
unfolding has_prefix
has_prefix-length s [] h = omega arith
has_prefix-length [] (p ∷ ps) h = cc
has_prefix-length (x ∷ xs) (p ∷ ps) h = ground (arith, has_prefix-length xs ps)

pub not_shorter : (s p : Bytes) → has_prefix s p ≡ true → ltb (length s) (length p) ≡ false
not_shorter s p h = ground (arith, has_prefix-length s p h)

take-has_prefix : (s d : Bytes) → has_prefix s d ≡ true → take (length d) s ≡ d
unfolding has_prefix
take-has_prefix s [] h = refl
take-has_prefix [] (p ∷ ps) h = cc
take-has_prefix (x ∷ xs) (p ∷ ps) h = ground (arith, take-has_prefix xs ps)

take-suc :
    (x j n m k : ℕ) (xs d : Bytes)
    → n ≡ suc k
    → m ≡ suc j
    → take k xs ≡ take j xs ++ d
    → take n (x ∷ xs) ≡ take m (x ∷ xs) ++ d
take-suc x j n m k xs d p q h = rw (p, q) (ap (λ (l : Bytes). x ∷ l) h)

take-index : (s d : Bytes) (i : ℕ) → index s d ≡ some i → take (i + length d) s ≡ take i s ++ d
unfolding index
take-index [] [] i h = ground arith
take-index [] (c ∷ d) i h = cc
take-index (x ∷ xs) d i h = elim (Bool-cases (has_prefix (x ∷ xs) d)) [
  | inl p ↦ found (ground arith) (take-has_prefix (x ∷ xs) d p)
  | inr p ↦ split (index xs d) refl p (take-index xs d)
]
  where
    found :
        i ≡ 0 → take (length d) (x ∷ xs) ≡ d → take (i + length d) (x ∷ xs) ≡ take i (x ∷ xs) ++ d
    found e k = let n : i + length d ≡ length d = omega arith in rw (n, e) k

    split :
        (o : Option ℕ)
        → index xs d ≡ o
        → has_prefix (x ∷ xs) d ≡ false
        → ((j : ℕ) → index xs d ≡ some j → take (j + length d) xs ≡ take j xs ++ d)
        → take (i + length d) (x ∷ xs) ≡ take i (x ∷ xs) ++ d
    split none e p ih = absurd (ground arith)
    split (some j) e p ih =
        let q : i ≡ j + 1 = ground arith in
        take-suc x j (i + length d) i (j + length d) xs d (omega arith) (omega arith) (ih j e)

has_prefix-take : (n : ℕ) (s : Bytes) → has_prefix s (take n s) ≡ true
unfolding has_prefix
has_prefix-take zero s = refl
has_prefix-take (suc n) [] = refl
has_prefix-take (suc n) (x ∷ xs) = ground (arith, has_prefix-take n xs)

has_prefix-append :
    (name prefix q : Bytes)
    → has_prefix name prefix ≡ true
    → has_prefix (drop (length prefix) name) q ≡ true
    → has_prefix name (prefix ++ q) ≡ true
unfolding has_prefix
has_prefix-append name [] q h k = k
has_prefix-append [] (p ∷ ps) q h k = cc
has_prefix-append (x ∷ xs) (p ∷ ps) q h k = ground (arith, has_prefix-append xs ps q)

ends_ascii-append : (front d : Bytes) → ends_ascii d ≡ true → ends_ascii (front ++ d) ≡ true
ends_ascii-append [] d h = h
ends_ascii-append (c ∷ []) [] h = cc
ends_ascii-append (c ∷ []) (d ∷ s) h = h
ends_ascii-append (c ∷ x ∷ front) d h = ends_ascii-append (x ∷ front) d h

pub ends_ascii-successor :
    (q : Bytes)
    → ends_ascii q ≡ true
    → (raises_ascii q ≡ true) × (bytes_eq (prefix_successor q) [] ≡ false)
ends_ascii-successor [] h = cc
ends_ascii-successor (c ∷ []) h =
    rw (successor-cons c []) (unfold prefix_successor bytes_eq successor_loop in ground arith)
ends_ascii-successor (c ∷ d ∷ s) h =
    let (raises, next) = ends_ascii-successor (d ∷ s) h in
    (
      ground (arith, raises, next),
      rw (successor-cons c (d ∷ s), prepend_some c _ (if c == 255 then [] else rune (c + 1)) next)
          (unfold bytes_eq in refl),
    )

-- Just above a name.
pub lt-above : (l a : Bytes) → not (bytes_lt a (l ++ 0 ∷ [])) ≡ bytes_lt l a
unfolding bytes_lt
lt-above [] [] = refl
lt-above [] (x ∷ xs) = ground (arith, not_lt_nil xs)
lt-above (y ∷ ys) [] = refl
lt-above (y ∷ ys) (x ∷ xs) = ground (arith, lt-above ys xs)

-- A common prefix of a name that has the prefix: the name has it, and it can be skipped.
pub record IsCommon (name cp : Bytes) : Type 0 where
  pub has : has_prefix name cp ≡ true
  pub raises : raises_ascii cp ≡ true
  pub some_next : bytes_eq (prefix_successor cp) [] ≡ false

pub common_prefix-IsCommon :
    (prefix delimiter name cp : Bytes)
    → ends_ascii delimiter ≡ true
    → has_prefix name prefix ≡ true
    → common_prefix prefix delimiter name ≡ some cp
    → IsCommon name cp
unfolding common_prefix
common_prefix-IsCommon prefix delimiter name cp a h e =
    split (index (drop (length prefix) name) delimiter) refl
  where
    split : (o : Option ℕ) → index (drop (length prefix) name) delimiter ≡ o → IsCommon name cp
    split none p = absurd (ground arith)
    split (some i) p =
        let rest = drop (length prefix) name in
        let q : cp ≡ prefix ++ take (i + length delimiter) rest = ground arith in
        let cut = take-index rest delimiter i p in
        let ends : ends_ascii cp ≡ true =
          rw (q, cut) (ends_ascii-append prefix _ (ends_ascii-append (take i rest) delimiter a)) in
        let (raises, next) = ends_ascii-successor cp ends in
        record {
          has = rw q (has_prefix-append name prefix _ h (has_prefix-take _ rest));
          raises = raises;
          some_next = next;
        }
