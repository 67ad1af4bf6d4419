-- ===== src/Store/Listing/Refines.antt =====
-- `ListObjects` is the one pass over the objects that have the prefix and are not before the token.
use objectstorage.Prelude.{
  ℕ, zero, suc, ◌+◌, ◌<◌, ◌≤◌, Option, some, true, false, not, ◌&&◌, ◌||◌, if◌then◌else◌, ltb, List,
  [], ◌∷◌, ◌≡◌, refl, ap, sym, ◌∙◌, arith, length, take, keep, inl, inr,
}
use objectstorage.Prelude.Bytes.{
  Bytes, bytes_eq, bytes_lt, bytes_lt_trans, bytes_lt_irrefl, bytes_le_trans, bytes_le_lt_trans,
}
use objectstorage.Store.Types.{Result, ok, Env, ObjectInfo, ListRequest}
use objectstorage.Store.Bucket.{Bucket, Faults, query}
use objectstorage.Store.Successor.{prefix_successor, in_range}
use objectstorage.Store.Successor.Range.{raises_ascii, IsBytes, in_range-prefix_successor}
use objectstorage.Store.Listing.{
  Page, Flow, stop, again, through, panic, scan_batch, order_by, row_name, select_range, scan_all,
  batch_size, after_batch, after_query, scan_loop,
}
use objectstorage.Store.Listing.Scan.{scan_all-keep, scan_all-take}
use objectstorage.Store.Listing.Names.{ends_ascii}
use objectstorage.Store.Listing.Terminates.{Counts, scan_batch-Counts}
use objectstorage.Store.Listing.Reference.{
  All, All-zip, All-keep, All-map, keep-keep, keep_ext, keep_holds, keep-IsAscending, IsAscending,
  walk,
}
use objectstorage.Store.Listing.Rounds.{IsListed, from, StartsBelow, Round, scan_batch-Round}
use objectstorage.Store.Listing.Batches.{BatchEnd, batch_end, grown}

module _ (env : Env) (fails : Faults) (req : ListRequest) (max : ℕ) (b : Bucket)
    (os : List ObjectInfo) (answers : fails query ≡ false)
    (read : scan_all env b.name (order_by row_name b.objects) ≡ ok os) (rising : IsAscending os)
    (bytes : All (λ o. IsBytes o.name) os) (ascii : raises_ascii req.prefix ≡ true)
    (plain : (bytes_eq req.delimiter [] || ends_ascii req.delimiter) ≡ true) where
  abbrev end : Bytes
  end = prefix_successor req.prefix

  -- The objects that are still to be listed from `next` on.
  abbrev remaining : Bytes → List ObjectInfo
  remaining next = keep (λ o. in_range next end o.name) os

  abbrev pass : ℕ → List ObjectInfo → Page → Page
  pass = walk req.prefix req.delimiter max

  queried :
      (next : Bytes)
      → scan_all env b.name (select_range next end batch_size b.objects)
        ≡ ok (take batch_size (remaining next))
  unfolding select_range
  queried next =
      scan_all-take env b.name batch_size _ _
        (scan_all-keep env b.name (in_range next end) (order_by row_name b.objects) os read)

  remaining-IsListed :
      (next : Bytes) → bytes_lt next req.prefix ≡ false → All (IsListed req.prefix) (remaining next)
  unfolding in_range
  remaining-IsListed next h =
      All-zip (remaining next) listed (keep_holds (λ (o : ObjectInfo). in_range next end o.name) os)
        (All-keep (λ o. IsBytes o.name) _ os bytes)
    where
      listed :
          (o : ObjectInfo)
          → in_range next end o.name ≡ true
          → IsBytes o.name
          → IsListed req.prefix o
      listed o r k = (
        ground (
          arith,
          r,
          bytes_le_trans req.prefix next o.name h,
          in_range-prefix_successor req.prefix o.name ascii k,
        ),
        k,
      )

  from-remaining :
      (next next' : Bytes)
      → StartsBelow next' (remaining next)
      → (bytes_lt next next' ≡ true) × (from next' (remaining next) ≡ remaining next')
  unfolding in_range
  from-remaining next next' h =
      let lt =
        below (remaining next) h (keep_holds (λ (o : ObjectInfo). in_range next end o.name) os) in
      (lt, keep-keep _ _ os ∙ keep_ext _ _ os (All-map os (λ o k. same lt o) bytes))
    where
      below :
          (xs : List ObjectInfo)
          → StartsBelow next' xs
          → All (λ o. in_range next end o.name ≡ true) xs
          → bytes_lt next next' ≡ true
      below [] s a = absurd s
      below (o ∷ xs) s (r, a) = ground (arith, bytes_le_lt_trans next o.name next', r, s)

      same :
          bytes_lt next next' ≡ true
          → (o : ObjectInfo)
          → (in_range next end o.name && not (bytes_lt o.name next')) ≡ in_range next' end o.name
      same lt o = ground (arith, lt, bytes_lt_trans o.name next next')

  walk_nil : (m : ℕ) (page : Page) → pass m [] page ≡ page
  unfolding walk
  walk_nil zero page = refl
  walk_nil (suc m) page = refl

  abbrev Lists : (Bytes → Page → Option (Result Page)) → ℕ → Bytes → Page → Type 0
  Lists go n next page = go next page ≡ some (ok (pass n (remaining next) page))

  module _ (n : ℕ) (next : Bytes) (page : Page) (go : Bytes → Page → Option (Result Page))
      (low : bytes_lt next req.prefix ≡ false)
      (rest : (m : ℕ) (next' : Bytes) (p : Page)
        → bytes_lt next' req.prefix ≡ false
        → page.count < p.count
        → p.count ≤ max
        → length (remaining next') ≤ m
        → Lists go m next' p) where
    later :
        (m : ℕ) (next' : Bytes) (p : Page)
        → StartsBelow next' (remaining next)
        → page.count < p.count
        → p.count ≤ max
        → length (from next' (remaining next)) ≤ m
        → go next' p ≡ some (ok (pass m (from next' (remaining next)) p))
    later m next' p s more fits len =
        let (lt, same) = from-remaining next next' s in
        let high =
          bytes_le_trans req.prefix next next' low
            (ground (arith, bytes_lt_trans next next' next lt, bytes_lt_irrefl next)) in
        rw same (rest m next' p high more fits (rw (← same) len))

    after_batch-Lists :
        (flow : Flow)
        → Round req.prefix req.delimiter max n batch_size (remaining next) page flow
        → Counts max (take batch_size (remaining next)) page flow
        → after_batch go (take batch_size (remaining next)) flow
          ≡ some (ok (pass n (remaining next) page))
    after_batch-Lists (stop p) r c = ap (λ (x : Page). some (ok x)) (sym r)
    after_batch-Lists panic r c = absurd r
    after_batch-Lists (again next' p) (m, s, len, r) (more, fits) =
        later m next' p s more fits len ∙ ap (λ (x : Page). some (ok x)) (sym r)
    after_batch-Lists (through p) (m, len, r) (more, fits) =
        split (batch_end 999 (remaining next) (keep-IsAscending _ os rising))
      where
        grows :
            ltb (length (take batch_size (remaining next))) batch_size ≡ false
            → page.count < p.count
        grows full = grown page.count p.count _ 999 full more

        split :
            BatchEnd 999 (remaining next)
            → after_batch go (take batch_size (remaining next)) (through p)
              ≡ some (ok (pass n (remaining next) page))
        split (inl (short, none_left)) =
            rw (short, if◌then◌else◌)
              (ap (λ (x : Page). some (ok x))
                (sym (r ∙ ap (λ (l : List ObjectInfo). pass m l p) none_left ∙ walk_nil m p)))
        split (inr (full, (s, rows))) =
            rw (full, if◌then◌else◌)
              (later m _ p s (grows full) fits (rw rows len)
                ∙ ap (λ (l : List ObjectInfo). some (ok (pass m l p))) rows
                ∙ ap (λ (x : Page). some (ok x)) (sym r))

  after_query-Lists :
      (n : ℕ) (next : Bytes) (page : Page) (go : Bytes → Page → Option (Result Page))
      → bytes_lt next req.prefix ≡ false
      → page.count ≤ max
      → length (remaining next) ≤ n
      → ((m : ℕ) (next' : Bytes) (p : Page)
          → bytes_lt next' req.prefix ≡ false
          → page.count < p.count
          → p.count ≤ max
          → length (remaining next') ≤ m
          → Lists go m next' p)
      → after_query go req max page
          (scan_all env b.name (select_range next end batch_size b.objects))
        ≡ some (ok (pass n (remaining next) page))
  after_query-Lists n next page go low fits len rest =
      let batch = take batch_size (remaining next) in
      rw (queried next) (
        after_batch-Lists n next page go low rest
          (scan_batch req.prefix req.delimiter max batch page)
          (scan_batch-Round req.prefix req.delimiter max plain batch_size n (remaining next) page
            (keep-IsAscending _ os rising) (remaining-IsListed next low) len)
          (scan_batch-Counts req.prefix req.delimiter max batch page fits))

  pub scan_loop-Lists :
      (fuel n : ℕ) (next : Bytes) (page : Page)
      → bytes_lt next req.prefix ≡ false
      → page.count ≤ max
      → max < fuel + page.count
      → length (remaining next) ≤ n
      → scan_loop env fails req end max b fuel next page ≡ some (ok (pass n (remaining next) page))
  unfolding scan_loop
  scan_loop-Lists zero n next page low fits enough len = absurd (omega arith)
  scan_loop-Lists (suc fuel) n next page low fits enough len =
      rw (answers, if◌then◌else◌)
        (after_query-Lists n next page (λ next' p. scan_loop env fails req end max b fuel next' p)
          low fits len
          (λ m next' p high more le l. scan_loop-Lists fuel m next' p high le (omega arith) l))
