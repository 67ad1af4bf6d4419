-- ===== src/Http/Print.antt =====
-- `strconv.FormatInt(n, 10)`, which is also `%d` of fmt, and its parsing.
use objectstorage.Prelude.{
  ℕ, zero, suc, ◌+◌, ◌*◌, ◌<◌, ◌≤◌, ◌^◌, ◌/◌, ◌%◌, Option, some, false, ◌==◌, if◌then◌else◌, ltb,
  [], ◌∷◌, ◌++◌, ◌≡◌, refl, sym, ap, ◌∙◌, arith, inl, inr, Bool-cases,
}
use objectstorage.Prelude.Bytes.{Bytes}
use objectstorage.Prelude.Int.{ℤ, pos, negsuc}
use objectstorage.Http.Text.{decimal, more_digits, some_digits, bounded_pos, bounded_neg, atoi}

-- A number has fewer digits than itself and one more.
unfoldable pub print_digits : ℕ → ℕ → Bytes
print_digits zero n = []
print_digits (suc fuel) n =
    let rest = print_digits fuel (n / 10) in
    if ltb n 10 then (b'0' + n) ∷ [] else rest ++ (b'0' + n % 10) ∷ []

unfoldable pub format_int : ℤ → Bytes
format_int (pos n) = print_digits (n + 1) n
format_int (negsuc n) = b'-' ∷ print_digits (suc (suc n)) (suc n)

decimal-append :
    (m : Option ℕ) (s : Bytes) (c : ℕ) → decimal m (s ++ c ∷ []) ≡ more_digits (decimal m s) c
unfolding decimal
decimal-append m [] c = refl
decimal-append m (d ∷ s) c = decimal-append (more_digits m d) s c

more_digits-digit : (m d : ℕ) → d < 10 → more_digits (some m) (b'0' + d) ≡ some (m * 10 + d)
more_digits-digit m d h = ground (arith, h)

decimal-print_digits : (fuel n : ℕ) → n < fuel → decimal (some 0) (print_digits fuel n) ≡ some n
unfolding print_digits decimal
decimal-print_digits zero n h = absurd (omega arith)
decimal-print_digits (suc fuel) n h = elim (Bool-cases (ltb n 10)) [
  | inl p ↦ rw p (more_digits-digit 0 n (ground (arith, p)) ∙ ap some (omega arith))
  | inr p ↦ rw p (
      decimal-append (some 0) (print_digits fuel (n / 10)) (b'0' + n % 10)
      ∙ ap (λ m. more_digits m (b'0' + n % 10))
          (decimal-print_digits fuel (n / 10) (ground (arith, p, h)))
      ∙ more_digits-digit (n / 10) (n % 10) (omega arith)
      ∙ ap some (omega arith))
]

first_digit :
    (fuel n : ℕ) → n < fuel → (c : ℕ) × (s : Bytes) × (print_digits fuel n ≡ c ∷ s) × (b'0' ≤ c)
unfolding print_digits
first_digit zero n h = absurd (omega arith)
first_digit (suc fuel) n h = elim (Bool-cases (ltb n 10)) [
  | inl p ↦ (b'0' + n, [], rw p refl, omega arith)
  | inr p ↦
      let (c, s, same, least) = first_digit fuel (n / 10) (ground (arith, p, h)) in
      (c, s ++ (b'0' + n % 10) ∷ [], simp (p, same) refl, least)
]

-- The range of int64.
abbrev pub IsInt64 : ℤ → Type 0
IsInt64 (pos n) = n < 2 ^ 63
IsInt64 (negsuc n) = n < 2 ^ 63

atoi-digits :
    (c : ℕ) (s : Bytes) (n : ℕ)
    → b'0' ≤ c
    → n < 2 ^ 63
    → some_digits (c ∷ s) ≡ some n
    → atoi (c ∷ s) ≡ some (pos n)
unfolding atoi
atoi-digits c s n least h read =
    let plus : (c == b'+') ≡ false = ground (arith, least) in
    let dash : (c == b'-') ≡ false = ground (arith, least) in
    simp (plus, dash) (ap bounded_pos read ∙ ground (arith, h))

-- A number of 64 bits comes back from its decimal form.
pub atoi-format_int : (n : ℤ) → IsInt64 n → atoi (format_int n) ≡ some n
unfolding atoi format_int
atoi-format_int (pos n) h =
    let (c, s, same, least) = first_digit (n + 1) n (omega arith) in
    ap atoi same
    ∙ atoi-digits c s n least h
        (ap (decimal (some 0)) (sym same) ∙ decimal-print_digits (n + 1) n (omega arith))
atoi-format_int (negsuc n) h =
    let (c, s, same, least) = first_digit (suc (suc n)) (suc n) (omega arith) in
    ap (λ t. bounded_neg (some_digits t)) same
    ∙ ap bounded_neg (
        ap (decimal (some 0)) (sym same) ∙ decimal-print_digits (suc (suc n)) (suc n) (omega arith))
    ∙ ground (arith, h)
