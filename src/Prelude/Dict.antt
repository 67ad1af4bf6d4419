-- ===== src/Prelude/Dict.antt =====
-- Maps and tables with a primary key, as association lists.
use objectstorage.Prelude.Tests.{if◌then◌else◌, Eq}
use Prim.Native.Nat.{ℕ, ◌+◌}
use mathlib.Core.Path.{◌≡◌, refl}
use mathlib.Core.Bool.{Bool}
use mathlib.Core.Option.{Option, none, some}
use mathlib.Core.List.{List, [], ◌∷◌}
use native.Mathlib.Omega.{arith}

abbrev pub Dict {ℓ} : Type ℓ → Type ℓ → Type ℓ
Dict K V = List (K × V)

-- 1 if there is a value and it passes the test.
abbrev pub tally {ℓ} : {V : Type ℓ} → (V → Bool) → Option V → ℕ
tally p none = 0
tally p (some v) = if p v then 1 else 0

-- How many entries pass a test.
unfoldable pub count {ℓ} : {K V : Type ℓ} → (V → Bool) → Dict K V → ℕ
count p [] = 0
count p ((j, v) ∷ d) = (if p v then 1 else 0) + count p d

module _ {ℓ} {K V : Type ℓ} ⦃e : Eq K⦄ where
  unfoldable pub get : K → Dict K V → Option V
  get k [] = none
  get k ((j, v) ∷ d) = if e.beq j k then some v else get k d

  unfoldable pub remove : K → Dict K V → Dict K V
  remove k [] = []
  remove k ((j, v) ∷ d) = let rest = remove k d in if e.beq j k then rest else (j, v) ∷ rest

  unfoldable pub put : K → V → Dict K V → Dict K V
  unfolding remove
  put k v d = (k, v) ∷ remove k d

  pub get-remove :
      (k j : K) (d : Dict K V) → get j (remove k d) ≡ (if e.beq k j then none else get j d)
  unfolding get remove
  get-remove k j [] = ground arith
  get-remove k j ((i, v) ∷ d) =
      ground (arith, get-remove k j d, e.beq_iff i k, e.beq_iff i j, e.beq_iff k j)

  pub get-put :
      (k j : K) (v : V) (d : Dict K V) → get j (put k v d) ≡ (if e.beq k j then some v else get j d)
  unfolding get put
  get-put k j v d = ground (arith, get-remove k j d)

  -- Every key stands once.
  abbrev pub IsUnique : Dict K V → Type ℓ
  IsUnique [] = Unit
  IsUnique ((k, v) ∷ d) = (get k d ≡ none) × IsUnique d

  pub remove-IsUnique : (k : K) (d : Dict K V) → IsUnique d → IsUnique (remove k d)
  unfolding remove
  remove-IsUnique k [] h = tt
  remove-IsUnique k ((j, v) ∷ d) h =
      ground (arith, get-remove k j d, remove-IsUnique k d, e.beq_iff k j)

  pub put-IsUnique : (k : K) (v : V) (d : Dict K V) → IsUnique d → IsUnique (put k v d)
  unfolding put
  put-IsUnique k v d h = ground (arith, get-remove k k d, remove-IsUnique k d h, e.beq_iff k k)

  count-remove-none :
      (p : V → Bool) (k : K) (d : Dict K V) → get k d ≡ none → count p (remove k d) ≡ count p d
  unfolding count remove get
  count-remove-none p k [] h = refl
  count-remove-none p k ((j, v) ∷ d) h = ground (arith, count-remove-none p k d)

  pub count-remove :
      (p : V → Bool) (k : K) (d : Dict K V)
      → IsUnique d
      → count p d ≡ tally p (get k d) + count p (remove k d)
  unfolding count remove get
  count-remove p k [] h = omega arith
  count-remove p k ((j, v) ∷ d) h =
      ground (arith, count-remove p k d, count-remove-none p k d, e.beq_iff j k)

  pub count-put :
      (p : V → Bool) (k : K) (v : V) (d : Dict K V)
      → count p (put k v d) ≡ (if p v then 1 else 0) + count p (remove k d)
  unfolding count put
  count-put p k v d = refl
