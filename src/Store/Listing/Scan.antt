-- ===== src/Store/Listing/Scan.antt =====
-- The rows that a query returns, and the objects that are read from them: in the order of the names.
use objectstorage.Prelude.{
  ℕ, zero, suc, none, Bool, true, false, List, [], ◌∷◌, ◌≢◌, ◌≡◌, refl, arith, take, keep, inl, inr,
  Bool-cases,
}
use objectstorage.Prelude.Bytes.{
  Bytes, bytes_Eq, bytes_eq_iff, bytes_lt, bytes_lt_trans, bytes_lt_total,
}
use objectstorage.Prelude.Dict.{Dict, get, IsUnique}
use objectstorage.Store.Types.{Result, ok, err, Env, ObjectInfo}
use objectstorage.Store.Bucket.{ObjectRow, scan_object}
use objectstorage.Store.Listing.{insert_row, order_by, row_name, scan_all}
use objectstorage.Store.Listing.Reference.{All, All-map, IsAscending}

-- Reading the rows commutes with the choice of rows by name.
scan_object-name :
    (env : Env) (bucket name : Bytes) (row : ObjectRow) (o : ObjectInfo)
    → scan_object env bucket name row ≡ ok o
    → o.name ≡ name
unfolding scan_object
scan_object-name env bucket name row o h = ground arith

record Scanned (env : Env) (bucket name : Bytes) (row : ObjectRow) (rows : List (Bytes × ObjectRow))
    (os : List ObjectInfo) : Type 0 where
  o : ObjectInfo
  rest : List ObjectInfo
  first : scan_object env bucket name row ≡ ok o
  others : scan_all env bucket rows ≡ ok rest
  eq : os ≡ o ∷ rest

scan_all-Scanned :
    (env : Env) (bucket name : Bytes) (row : ObjectRow) (rows : List (Bytes × ObjectRow))
    (os : List ObjectInfo)
    → scan_all env bucket ((name, row) ∷ rows) ≡ ok os
    → Scanned env bucket name row rows os
unfolding scan_all
scan_all-Scanned env bucket name row rows os h =
    split (scan_object env bucket name row) (scan_all env bucket rows) refl refl
  where
    split :
        (r : Result ObjectInfo) (s : Result (List ObjectInfo))
        → scan_object env bucket name row ≡ r
        → scan_all env bucket rows ≡ s
        → Scanned env bucket name row rows os
    split (ok o) (ok rest) p q = record {
      o = o;
      rest = rest;
      first = p;
      others = q;
      eq = ground (arith, p, q, h);
    }
    split (ok o) (err e) p q = absurd (ground (arith, p, q, h))
    split (err e) s p q = absurd (ground (arith, p, q, h))

pub scan_all-keep :
    (env : Env) (bucket : Bytes) (test : Bytes → Bool) (rows : List (Bytes × ObjectRow))
    (os : List ObjectInfo)
    → scan_all env bucket rows ≡ ok os
    → scan_all env bucket (keep (λ r. test (row_name r)) rows) ≡ ok (keep (λ o. test o.name) os)
unfolding scan_all
scan_all-keep env bucket test [] os h = let e : os ≡ [] = ground arith in rw e
scan_all-keep env bucket test ((name, row) ∷ rows) os h =
    let s = scan_all-Scanned env bucket name row rows os h in
    ground (
      arith,
      scan_all-keep env bucket test rows s.rest s.others,
      s.first,
      s.eq,
      scan_object-name env bucket name row s.o s.first,
    )

pub scan_all-take :
    (env : Env) (bucket : Bytes) (n : ℕ) (rows : List (Bytes × ObjectRow)) (os : List ObjectInfo)
    → scan_all env bucket rows ≡ ok os
    → scan_all env bucket (take n rows) ≡ ok (take n os)
unfolding scan_all
scan_all-take env bucket zero rows os h = refl
scan_all-take env bucket (suc n) [] os h = let e : os ≡ [] = ground arith in rw e
scan_all-take env bucket (suc n) ((name, row) ∷ rows) os h =
    let s = scan_all-Scanned env bucket name row rows os h in
    rw s.eq (ground (arith, scan_all-take env bucket n rows s.rest s.others, s.first))

pub scan_all-All :
    (env : Env) (bucket : Bytes) (P : Bytes → Type 0) (rows : List (Bytes × ObjectRow))
    (os : List ObjectInfo)
    → scan_all env bucket rows ≡ ok os
    → All (λ r. P (row_name r)) rows
    → All (λ o. P o.name) os
unfolding scan_all
scan_all-All env bucket P [] os h a = let e : os ≡ [] = ground arith in rw e tt
scan_all-All env bucket P ((name, row) ∷ rows) os h (a, rest) =
    let s = scan_all-Scanned env bucket name row rows os h in
    rw s.eq (
      rw (scan_object-name env bucket name row s.o s.first) a,
      scan_all-All env bucket P rows s.rest s.others rest,
    )

module _ {A : Type 0} (name : A → Bytes) where
  abbrev pub IsRising : List A → Type 0
  IsRising [] = Unit
  IsRising (x ∷ xs) = All (λ y. bytes_lt (name x) (name y) ≡ true) xs × IsRising xs

  -- No two have one name.
  abbrev pub IsDistinct : List A → Type 0
  IsDistinct [] = Unit
  IsDistinct (x ∷ xs) = All (λ y. name x ≢ name y) xs × IsDistinct xs

  insert_row-All :
      (P : A → Type 0) (r : A) (xs : List A) → P r → All P xs → All P (insert_row name r xs)
  insert_row-All P r [] h hs = (h, tt)
  insert_row-All P r (x ∷ xs) h (k, ks) = elim (Bool-cases (bytes_lt (name r) (name x))) [
    | inl t ↦ rw t (h, (k, ks))
    | inr t ↦ rw t (k, insert_row-All P r xs h ks)
  ]

  insert_row-IsRising :
      (r : A) (xs : List A)
      → All (λ x. name r ≢ name x) xs
      → IsRising xs
      → IsRising (insert_row name r xs)
  insert_row-IsRising r [] new h = (tt, tt)
  insert_row-IsRising r (x ∷ xs) (ne, new) (h, hs) =
      elim (Bool-cases (bytes_lt (name r) (name x))) [
        | inl t ↦
            rw t ((t, All-map xs (λ y q. bytes_lt_trans (name r) (name x) (name y) t q) h), (h, hs))
        | inr t ↦ rw t (
          insert_row-All (λ y. bytes_lt (name x) (name y) ≡ true) r xs (above t) h,
          insert_row-IsRising r xs new hs,
        )
      ]
    where
      above : bytes_lt (name r) (name x) ≡ false → bytes_lt (name x) (name r) ≡ true
      above t = elim (Bool-cases (bytes_lt (name x) (name r))) [
        | inl q ↦ q
        | inr q ↦ absurd (ne (bytes_lt_total (name r) (name x) t q))
      ]

  pub order_by-All : (P : A → Type 0) (xs : List A) → All P xs → All P (order_by name xs)
  unfolding order_by
  order_by-All P [] h = tt
  order_by-All P (x ∷ xs) (h, hs) = insert_row-All P x (order_by name xs) h (order_by-All P xs hs)

  pub order_by-IsRising : (xs : List A) → IsDistinct xs → IsRising (order_by name xs)
  unfolding order_by
  order_by-IsRising [] h = tt
  order_by-IsRising (x ∷ xs) (h, hs) =
      insert_row-IsRising x (order_by name xs) (order_by-All _ xs h) (order_by-IsRising xs hs)

get-none :
    (name : Bytes) (rows : List (Bytes × ObjectRow))
    → get name rows ≡ none
    → All (λ r. name ≢ row_name r) rows
unfolding get
get-none name [] h = tt
get-none name ((other, row) ∷ rows) h =
    (λ e. ground (arith, bytes_eq_iff other name), get-none name rows (ground arith))

IsUnique-IsDistinct : (rows : List (Bytes × ObjectRow)) → IsUnique rows → IsDistinct row_name rows
IsUnique-IsDistinct [] h = tt
IsUnique-IsDistinct ((name, row) ∷ rows) (h, hs) =
    (get-none name rows h, IsUnique-IsDistinct rows hs)

scan_all-IsAscending :
    (env : Env) (bucket : Bytes) (rows : List (Bytes × ObjectRow)) (os : List ObjectInfo)
    → scan_all env bucket rows ≡ ok os
    → IsRising row_name rows
    → IsAscending os
unfolding scan_all
scan_all-IsAscending env bucket [] os h r = let e : os ≡ [] = ground arith in rw e tt
scan_all-IsAscending env bucket ((name, row) ∷ rows) os h (r, rs) =
    let s = scan_all-Scanned env bucket name row rows os h in
    rw (s.eq, scan_object-name env bucket name row s.o s.first)
      (
        scan_all-All env bucket (λ n. bytes_lt name n ≡ true) rows s.rest s.others r,
        scan_all-IsAscending env bucket rows s.rest s.others rs,
      )

-- The table's rows, in the order of the query, are read as an ascending list.
pub order_by-IsAscending :
    (env : Env) (bucket : Bytes) (objects : Dict Bytes ObjectRow) (os : List ObjectInfo)
    → IsUnique objects
    → scan_all env bucket (order_by row_name objects) ≡ ok os
    → IsAscending os
order_by-IsAscending env bucket objects os u h =
    scan_all-IsAscending env bucket (order_by row_name objects) os h
      (order_by-IsRising row_name objects (IsUnique-IsDistinct objects u))
