-- ===== src/Store/Listing/Reference.antt =====
-- What a listing means, with no batches and no successors: one pass over the objects in order, in
-- which a common prefix takes all its group along.
use objectstorage.Prelude.{
  ℕ, zero, suc, ◌≤◌, none, some, Bool, true, false, not, ◌&&◌, if◌then◌else◌, leb, List, [], ◌∷◌,
  ◌≡◌, refl, ap, arith, length, keep, inl, inr, Bool-cases,
}
use objectstorage.Prelude.Bytes.{Bytes, bytes_lt, has_prefix}
use objectstorage.Store.Types.{ObjectInfo}
use objectstorage.Store.Listing.{Page, push_object, push_prefix, common_prefix}

abbrev pub All {ℓ κ} : {A : Type ℓ} → (A → Type κ) → List A → Type κ
All P [] = Unit
All P (x ∷ xs) = P x × All P xs

module _ {ℓ} {A : Type ℓ} where
  pub keep-keep : (p q : A → Bool) (xs : List A) → keep p (keep q xs) ≡ keep (λ x. q x && p x) xs
  keep-keep p q [] = refl
  keep-keep p q (x ∷ xs) = ground (arith, keep-keep p q xs)

  pub keep_ext : (p q : A → Bool) (xs : List A) → All (λ x. p x ≡ q x) xs → keep p xs ≡ keep q xs
  keep_ext p q [] h = refl
  keep_ext p q (x ∷ xs) (h, hs) = ground (arith, h, keep_ext p q xs hs)

  pub length-keep : (p : A → Bool) (xs : List A) → length (keep p xs) ≤ length xs
  length-keep p [] = omega arith
  length-keep p (x ∷ xs) = ground (arith, length-keep p xs)

  pub All-map {κ} : {P Q : A → Type κ} (xs : List A) → ((x : A) → P x → Q x) → All P xs → All Q xs
  All-map [] f h = tt
  All-map (x ∷ xs) f (h, hs) = (f x h, All-map xs f hs)

  pub All-always {κ} : {P : A → Type κ} (xs : List A) → ((x : A) → P x) → All P xs
  All-always [] f = tt
  All-always (x ∷ xs) f = (f x, All-always xs f)

  pub All-zip {κ} :
      {P Q R : A → Type κ} (xs : List A)
      → ((x : A) → P x → Q x → R x)
      → All P xs
      → All Q xs
      → All R xs
  All-zip [] f h k = tt
  All-zip (x ∷ xs) f (h, hs) (k, ks) = (f x h k, All-zip xs f hs ks)

  pub All-keep {κ} : (P : A → Type κ) (p : A → Bool) (xs : List A) → All P xs → All P (keep p xs)
  All-keep P p [] h = tt
  All-keep P p (x ∷ xs) (h, hs) = choose (p x) (All-keep P p xs hs)
    where
      choose : (b : Bool) → All P (keep p xs) → All P (if b then x ∷ keep p xs else keep p xs)
      choose true k = (h, k)
      choose false k = k

pub keep-All {ℓ} :
    {A : Type ℓ} (p : A → Bool) (xs : List A) → All (λ x. p x ≡ true) xs → keep p xs ≡ xs
keep-All p [] h = refl
keep-All {A} p (x ∷ xs) (h, hs) =
    rw (h, if◌then◌else◌) (ap (λ (l : List A). x ∷ l) (keep-All p xs hs))

pub keep_holds {ℓ} : {A : Type ℓ} (p : A → Bool) (xs : List A) → All (λ x. p x ≡ true) (keep p xs)
keep_holds p [] = tt
keep_holds p (x ∷ xs) = elim (Bool-cases (p x)) [
  | inl h ↦ rw (h, if◌then◌else◌) (h, keep_holds p xs)
  | inr h ↦ rw (h, if◌then◌else◌) (keep_holds p xs)
]

-- The names rise strictly.
abbrev pub IsAscending : List ObjectInfo → Type 0
IsAscending [] = Unit
IsAscending (o ∷ os) = All (λ p. bytes_lt o.name p.name ≡ true) os × IsAscending os

pub keep-IsAscending :
    (p : ObjectInfo → Bool) (os : List ObjectInfo) → IsAscending os → IsAscending (keep p os)
keep-IsAscending p [] h = tt
keep-IsAscending p (o ∷ os) (h, hs) = choose (p o) (keep-IsAscending p os hs)
  where
    choose :
        (b : Bool) → IsAscending (keep p os) → IsAscending (if b then o ∷ keep p os else keep p os)
    choose true k = (All-keep (λ q. bytes_lt o.name q.name ≡ true) p os h, k)
    choose false k = k

-- The objects behind one with the common prefix `cp`.
abbrev pub outside : Bytes → List ObjectInfo → List ObjectInfo
outside cp os = keep (λ o. not (has_prefix o.name cp)) os

-- One page, by at most `n` entries: the first objects and common prefixes in order, and the name
-- where the next page begins if there is one.
unfoldable pub walk : Bytes → Bytes → ℕ → ℕ → List ObjectInfo → Page → Page
walk prefix delimiter max zero os page = page
walk prefix delimiter max (suc n) [] page = page
walk prefix delimiter max (suc n) (o ∷ os) page =
    if leb max page.count
    then record page { next_page_token = o.name }
    else elim (common_prefix prefix delimiter o.name) [
      | none ↦ walk prefix delimiter max n os (push_object o page)
      | some cp ↦ walk prefix delimiter max n (outside cp os) (push_prefix cp page)
    ]
