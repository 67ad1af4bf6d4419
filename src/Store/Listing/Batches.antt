-- ===== src/Store/Listing/Batches.antt =====
-- Where a batch ends, and where the one behind it begins.
use objectstorage.Prelude.{
  ℕ, zero, suc, ◌+◌, ◌<◌, ◌≤◌, true, false, if◌then◌else◌, ltb, List, [], ◌∷◌, ◌++◌, ◌⊎◌, ◌≡◌, refl,
  ◌∙◌, arith, length, take, drop, inl, inr, Bool-cases, length-take,
}
use objectstorage.Prelude.Bytes.{bytes_lt, bytes_lt_trans, bytes_lt_irrefl}
use objectstorage.Store.Types.{ObjectInfo}
use objectstorage.Store.Listing.{last_name}
use objectstorage.Store.Listing.Names.{lt-above}
use objectstorage.Store.Listing.Reference.{All-map, keep-All, IsAscending}
use objectstorage.Store.Listing.Rounds.{from, StartsBelow}

drop-short {ℓ} : {A : Type ℓ} (k : ℕ) (xs : List A) → length (take k xs) < k → drop k xs ≡ []
drop-short zero xs h = absurd (omega arith)
drop-short (suc k) [] h = refl
drop-short (suc k) (x ∷ xs) h = drop-short k xs (omega arith)

-- The round behind a full batch begins with the object that follows it.
pub from-drop :
    (k : ℕ) (os : List ObjectInfo)
    → suc k ≤ length os
    → IsAscending os
    → StartsBelow (last_name (take (suc k) os) ++ 0 ∷ []) os
      × (from (last_name (take (suc k) os) ++ 0 ∷ []) os ≡ drop (suc k) os)
from-drop k [] h a = absurd (omega arith)
from-drop zero (o ∷ os) h (rise, a) =
    let below : bytes_lt o.name (o.name ++ 0 ∷ []) ≡ true =
      ground (arith, lt-above o.name o.name, bytes_lt_irrefl o.name) in
    (
      below,
      rw (below, if◌then◌else◌)
          (keep-All _ os (All-map os (λ p q. lt-above o.name p.name ∙ q) rise)),
    )
from-drop (suc k) (o ∷ []) h a = absurd (omega arith)
from-drop (suc k) (o ∷ q ∷ os) h ((lt, rise), a) =
    let (below, rows) = from-drop k (q ∷ os) (omega arith) a in
    let first : bytes_lt o.name (last_name (take (suc k) (q ∷ os)) ++ 0 ∷ []) ≡ true =
      bytes_lt_trans o.name q.name _ lt below in
    (first, rw (first, if◌then◌else◌) rows)

-- Whether a batch was the last, and where the next one begins.
abbrev pub BatchEnd : ℕ → List ObjectInfo → Type 0
BatchEnd k os =
    ((ltb (length (take (suc k) os)) (suc k) ≡ true) × (drop (suc k) os ≡ []))
    ⊎ ((ltb (length (take (suc k) os)) (suc k) ≡ false)
        × (StartsBelow (last_name (take (suc k) os) ++ 0 ∷ []) os
            × (from (last_name (take (suc k) os) ++ 0 ∷ []) os ≡ drop (suc k) os)))

pub batch_end : (k : ℕ) (os : List ObjectInfo) → IsAscending os → BatchEnd k os
batch_end k os a = elim (Bool-cases (ltb (length (take (suc k) os)) (suc k))) [
  | inl h ↦ inl (h, drop-short (suc k) os (ground arith))
  | inr h ↦ inr (h, from-drop k os (not_short (suc k) os h) a)
]
  where
    not_short : (j : ℕ) (xs : List ObjectInfo) → ltb (length (take j xs)) j ≡ false → j ≤ length xs
    not_short j xs h = ground (arith, length-take {0} j xs)

pub grown : (a c len k : ℕ) → ltb len (suc k) ≡ false → c ≡ a + len → a < c
grown a c len k h e = ground arith
