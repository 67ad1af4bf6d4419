-- ===== src/Store/Listing/Rounds.antt =====
-- One round of the loop of `ListObjects` against the pass that it stands for.
use objectstorage.Prelude.{
  ℕ, zero, suc, ◌≤◌, Option, none, some, true, false, not, ◌||◌, if◌then◌else◌, leb, List, [], ◌∷◌,
  ◌≡◌, refl, ◌∙◌, arith, length, take, drop, keep, inl, inr, Bool-cases,
}
use objectstorage.Prelude.Bytes.{Bytes, bytes_eq, bytes_lt, has_prefix, bytes_lt_trans}
use objectstorage.Store.Types.{ObjectInfo}
use objectstorage.Store.Successor.{prefix_successor, in_range}
use objectstorage.Store.Successor.Range.{IsBytes, in_range-prefix_successor}
use objectstorage.Store.Listing.{
  Page, push_object, push_prefix, Flow, stop, again, through, panic, place, skip_group,
  common_prefix, scan_batch,
}
use objectstorage.Store.Listing.Names.{ends_ascii, not_shorter, IsCommon, common_prefix-IsCommon}
use objectstorage.Store.Listing.Reference.{
  All, keep_ext, length-keep, All-zip, All-map, IsAscending, outside, walk,
}

-- An object that a listing with the prefix can meet.
abbrev pub IsListed : Bytes → ObjectInfo → Type 0
IsListed prefix o = (has_prefix o.name prefix ≡ true) × IsBytes o.name

-- The rows that a round from `next` on would still see.
abbrev pub from : Bytes → List ObjectInfo → List ObjectInfo
from next os = keep (λ o. not (bytes_lt o.name next)) os

abbrev pub StartsBelow : Bytes → List ObjectInfo → Type 0
StartsBelow next [] = ⊥
StartsBelow next (o ∷ os) = bytes_lt o.name next ≡ true

module _ (prefix delimiter : Bytes) (max : ℕ) where
  -- What a round over the first `k` of the objects `os` has done, where the pass may list `n`.
  abbrev pub Round : ℕ → ℕ → List ObjectInfo → Page → Flow → Type 0
  Round n k os page (stop p) = walk prefix delimiter max n os page ≡ p
  Round n k os page (through p) =
      (m : ℕ) × (length (drop k os) ≤ m)
      × (walk prefix delimiter max n os page ≡ walk prefix delimiter max m (drop k os) p)
  Round n k os page (again next p) =
      (m : ℕ) × StartsBelow next os
      × (length (from next os) ≤ m)
      × (walk prefix delimiter max n os page ≡ walk prefix delimiter max m (from next os) p)
  Round n k os page panic = ⊥

-- Behind an object of a group, the names from the successor on are those outside the group.
from-outside :
    (o : ObjectInfo) (cp : Bytes) (os : List ObjectInfo)
    → IsCommon o.name cp
    → IsBytes o.name
    → All (λ p. bytes_lt o.name p.name ≡ true) os
    → All (λ p. IsBytes p.name) os
    → (bytes_lt o.name (prefix_successor cp) ≡ true)
      × (from (prefix_successor cp) os ≡ outside cp os)
unfolding in_range
from-outside o cp os c b rising bytes =
    let range = in_range-prefix_successor cp o.name c.raises b in
    (
      ground (arith, range, c.has, c.some_next),
      keep_ext _ _ os (All-zip os (beyond range) rising bytes),
    )
  where
    beyond :
        in_range cp (prefix_successor cp) o.name ≡ has_prefix o.name cp
        → (p : ObjectInfo) → bytes_lt o.name p.name ≡ true
        → IsBytes p.name
        → not (bytes_lt p.name (prefix_successor cp)) ≡ not (has_prefix p.name cp)
    beyond range p lt bp = ground (
      arith,
      range,
      c.has,
      c.some_next,
      in_range-prefix_successor cp p.name c.raises bp,
      bytes_lt_trans o.name p.name cp lt,
    )

module _ (prefix delimiter : Bytes) (max : ℕ) where
  -- The round goes on behind an object that is listed by itself.
  object-Round :
      (n k : ℕ) (o : ObjectInfo) (os : List ObjectInfo) (page : Page) (flow : Flow)
      → All (λ p. bytes_lt o.name p.name ≡ true) os
      → walk prefix delimiter max (suc n) (o ∷ os) page
        ≡ walk prefix delimiter max n os (push_object o page)
      → Round prefix delimiter max n k os (push_object o page) flow
      → Round prefix delimiter max (suc n) (suc k) (o ∷ os) page flow
  object-Round n k o os page (stop p) rising e r = e ∙ r
  object-Round n k o os page (through p) rising e (m, fits, r) = (m, fits, e ∙ r)
  object-Round n k o [] page (again next p) rising e (m, below, fits, r) = absurd below
  object-Round n k o (q ∷ os) page (again next p) rising e (m, below, fits, r) =
      let lt : bytes_lt o.name next ≡ true = bytes_lt_trans o.name q.name next rising.0 below in
      (m, lt, rw (lt, if◌then◌else◌) fits, rw (lt, if◌then◌else◌) (e ∙ r))
  object-Round n k o os page panic rising e r = r

  walk-full :
      (n : ℕ) (o : ObjectInfo) (os : List ObjectInfo) (page : Page)
      → leb max page.count ≡ true
      → walk prefix delimiter max (suc n) (o ∷ os) page ≡ record page { next_page_token = o.name }
  unfolding walk
  walk-full n o os page full = rw full

  -- A common prefix ends the round.
  group-Round :
      (n k : ℕ) (o : ObjectInfo) (cp : Bytes) (os : List ObjectInfo) (page : Page)
      → IsCommon o.name cp
      → IsBytes o.name
      → All (λ p. bytes_lt o.name p.name ≡ true) os
      → All (λ p. IsBytes p.name) os
      → length os ≤ n
      → walk prefix delimiter max (suc n) (o ∷ os) page
        ≡ walk prefix delimiter max n (outside cp os) (push_prefix cp page)
      → Round prefix delimiter max (suc n) (suc k) (o ∷ os) page (skip_group cp page)
  group-Round n k o cp os page c b rising bytes fits e =
      let (lt, rows) = from-outside o cp os c b rising bytes in
      rw c.some_next (
        n,
        lt,
        rw (lt, if◌then◌else◌, rows)
            (omega (arith, length-keep {0} (λ (p : ObjectInfo). not (has_prefix p.name cp)) os)),
        rw (lt, if◌then◌else◌, rows) e,
      )

  module _ (plain : (bytes_eq delimiter [] || ends_ascii delimiter) ≡ true) where
    cut-IsCommon :
        (name cp : Bytes)
        → has_prefix name prefix ≡ true
        → common_prefix prefix delimiter name ≡ some cp
        → IsCommon name cp
    cut-IsCommon name cp h e = elim (Bool-cases (bytes_eq delimiter [])) [
      | inl q ↦ absurd (unfold common_prefix in ground arith)
      | inr q ↦ common_prefix-IsCommon prefix delimiter name cp (ground arith) h e
    ]

    place-Round :
        (n k : ℕ) (o : ObjectInfo) (os : List ObjectInfo) (page : Page) (rest : Flow)
        (cp : Option Bytes)
        → IsListed prefix o
        → IsAscending (o ∷ os)
        → All (IsListed prefix) os
        → length os ≤ n
        → leb max page.count ≡ false
        → common_prefix prefix delimiter o.name ≡ cp
        → Round prefix delimiter max n k os (push_object o page) rest
        → Round prefix delimiter max (suc n) (suc k) (o ∷ os) page (place cp page rest)
    place-Round n k o os page rest none l rising ls fits free e r =
        object-Round n k o os page rest rising.0 (unfold walk in ground arith) r
    place-Round n k o os page rest (some cp) l rising ls fits free e r =
        group-Round n k o cp os page (cut-IsCommon o.name cp l.0 e) l.1 rising.0
          (All-map os (λ p q. q.1) ls) fits (unfold walk in ground arith)

    -- A round over the first objects of an ascending list is so many steps of the pass.
    pub scan_batch-Round :
        (k n : ℕ) (os : List ObjectInfo) (page : Page)
        → IsAscending os
        → All (IsListed prefix) os
        → length os ≤ n
        → Round prefix delimiter max n k os page (scan_batch prefix delimiter max (take k os) page)
    unfolding scan_batch
    scan_batch-Round zero n os page rising ls fits = (n, fits, refl)
    scan_batch-Round (suc k) n [] page rising ls fits = (n, fits, refl)
    scan_batch-Round (suc k) zero (o ∷ os) page rising ls fits = absurd (omega arith)
    scan_batch-Round (suc k) (suc n) (o ∷ os) page rising (l, ls) fits =
        let ih = scan_batch-Round k n os (push_object o page) rising.1 ls (omega arith) in
        elim (Bool-cases (leb max page.count)) [
          | inl full ↦ rw full (walk-full n o os page full)
          | inr free ↦
              rw (free, not_shorter o.name prefix l.0)
                (place-Round n k o os page _ (common_prefix prefix delimiter o.name) l rising ls
                  (omega arith) free refl ih)
        ]
