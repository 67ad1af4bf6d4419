-- ===== src/Store/Listing/Sized.antt =====
-- A page of a listing holds no more entries than were asked for, and no fewer where more follow.
use objectstorage.Prelude.{
  ℕ, zero, suc, ◌+◌, ◌≤◌, Option, none, some, false, ltb, leb, List, [], ◌∷◌, length, length-append,
  ◌≡◌, ◌⊎◌, refl, sym, if◌then◌else◌, arith, inl, inr, Bool-cases,
}
use objectstorage.Prelude.Int.{ℤ, pos, negsuc}
use objectstorage.Prelude.Bytes.{Bytes, bytes_eq}
use objectstorage.Store.Types.{Result, ok, err, Env, ObjectInfo, ListRequest, ListResult}
use objectstorage.Store.Bucket.{Bucket, Faults, query}
use objectstorage.Store.Successor.{prefix_successor}
use objectstorage.Store.Listing.{
  Page, push_object, push_prefix, Flow, stop, again, through, panic, common_prefix, place,
  scan_batch, batch_size, after_batch, after_query, scan_loop, max_results_of, first_name,
  empty_page, to_result, list_objects,
}

-- The count is the number of the entries, and they are no more than `max`.
record IsCounted (max : ℕ) (page : Page) : Type 0 where
  counted : length page.objects + length page.prefixes ≡ page.count
  bounded : page.count ≤ max

-- A page that may still grow.
record IsSized (max : ℕ) (page : Page) : Type 0 where
  counted : IsCounted max page
  fresh : page.next_page_token ≡ []

-- A page that ends a listing, or is full.
record IsPage (max : ℕ) (page : Page) : Type 0 where
  counted : IsCounted max page
  full : (page.next_page_token ≡ []) ⊎ (page.count ≡ max)

abbrev FlowSized : ℕ → Flow → Type 0
FlowSized max (stop p) = IsPage max p
FlowSized max (again next p) = IsSized max p
FlowSized max (through p) = IsSized max p
FlowSized max panic = Unit

abbrev ResultSized : ℕ → Option (Result Page) → Type 0
ResultSized max none = Unit
ResultSized max (some (err e)) = Unit
ResultSized max (some (ok p)) = IsPage max p

ended : (max : ℕ) (page : Page) → IsSized max page → IsPage max page
ended max page h = record { counted = h.counted; full = inl h.fresh }

module _ (max : ℕ) where
  push_object-IsSized :
      (o : ObjectInfo) (page : Page)
      → IsSized max page
      → leb max page.count ≡ false
      → IsSized max (push_object o page)
  push_object-IsSized o page h free = record {
    counted = record {
      counted = ground (arith, h.counted.counted, length-append {0} page.objects (o ∷ []));
      bounded = ground (arith, free);
    };
    fresh = h.fresh;
  }

  push_prefix-IsSized :
      (cp : Bytes) (page : Page)
      → IsSized max page
      → leb max page.count ≡ false
      → IsSized max (push_prefix cp page)
  push_prefix-IsSized cp page h free = record {
    counted = record {
      counted = ground (arith, h.counted.counted, length-append {0} page.prefixes (cp ∷ []));
      bounded = ground (arith, free);
    };
    fresh = h.fresh;
  }

  place-FlowSized :
      (cp : Option Bytes) (page : Page) (rest : Flow)
      → IsSized max page
      → leb max page.count ≡ false
      → FlowSized max rest
      → FlowSized max (place cp page rest)
  place-FlowSized none page rest h free k = k
  place-FlowSized (some cp) page rest h free k =
      elim (Bool-cases (bytes_eq (prefix_successor cp) [])) [
        | inl t ↦ rw t (ended max (push_prefix cp page) (push_prefix-IsSized cp page h free))
        | inr t ↦ rw t (push_prefix-IsSized cp page h free)
      ]

  scan_batch-FlowSized :
      (prefix delimiter : Bytes) (batch : List ObjectInfo) (page : Page)
      → IsSized max page
      → FlowSized max (scan_batch prefix delimiter max batch page)
  unfolding scan_batch
  scan_batch-FlowSized prefix delimiter [] page h = h
  scan_batch-FlowSized prefix delimiter (o ∷ batch) page h =
      elim (Bool-cases (leb max page.count)) [
        | inl full ↦ rw full (record {
          counted = record { counted = h.counted.counted; bounded = h.counted.bounded };
          full = inr (ground (arith, full, h.counted.bounded));
        })
        | inr free ↦ elim (Bool-cases (ltb (length o.name) (length prefix))) [
          | inl short ↦ rw (free, short) tt
          | inr long ↦
              rw (free, long)
                (place-FlowSized (common_prefix prefix delimiter o.name) page _ h free (
                  scan_batch-FlowSized prefix delimiter batch (push_object o page)
                    (push_object-IsSized o page h free)))
        ]
      ]

  module _ (go : Bytes → Page → Option (Result Page))
      (later : (next : Bytes) (p : Page) → IsSized max p → ResultSized max (go next p)) where
    after_batch-ResultSized :
        (batch : List ObjectInfo) (flow : Flow)
        → FlowSized max flow
        → ResultSized max (after_batch go batch flow)
    after_batch-ResultSized batch (stop p) h = h
    after_batch-ResultSized batch (again next p) h = later next p h
    after_batch-ResultSized batch panic h = tt
    after_batch-ResultSized batch (through p) h =
        elim (Bool-cases (ltb (length batch) batch_size)) [
          | inl t ↦ rw t (ended max p h)
          | inr t ↦ rw t (later _ p h)
        ]

    after_query-ResultSized :
        (req : ListRequest) (page : Page) (r : Result (List ObjectInfo))
        → IsSized max page
        → ResultSized max (after_query go req max page r)
    after_query-ResultSized req page (err e) h = tt
    after_query-ResultSized req page (ok batch) h =
        after_batch-ResultSized batch _ (scan_batch-FlowSized req.prefix req.delimiter batch page h)

  scan_loop-ResultSized :
      (env : Env) (fails : Faults) (req : ListRequest) (end : Bytes) (b : Bucket) (fuel : ℕ)
      (next : Bytes) (page : Page)
      → IsSized max page
      → ResultSized max (scan_loop env fails req end max b fuel next page)
  unfolding scan_loop
  scan_loop-ResultSized env fails req end b zero next page h = tt
  scan_loop-ResultSized env fails req end b (suc fuel) next page h =
      elim (Bool-cases (fails query)) [
        | inl q ↦ rw q tt
        | inr q ↦ rw q (
            after_query-ResultSized _
              (λ next' p k. scan_loop-ResultSized env fails req end b fuel next' p k) req page _ h)
      ]

-- The number of entries that a page has where it does not end the listing.
abbrev pub limit : ℤ → ℕ
limit (pos zero) = 1000
limit (pos (suc n)) = if ltb n 1000 then suc n else 1000
limit (negsuc n) = 1000

limit-max_results_of : (n : ℤ) → max_results_of n ≡ limit n
unfolding max_results_of
limit-max_results_of (pos zero) = refl
limit-max_results_of (pos (suc n)) = ground arith
limit-max_results_of (negsuc n) = refl

-- The entries of a page, against the limit of its request.
record IsLimited (most : ℕ) (r : ListResult) : Type 0 where
  pub bounded : length r.objects + length r.prefixes ≤ most
  pub full : (r.next_page_token ≡ []) ⊎ (length r.objects + length r.prefixes ≡ most)

to_result-ResultSized :
    (max : ℕ) (x : Option (Result Page)) (r : ListResult)
    → ResultSized max x
    → to_result x ≡ some (ok r)
    → IsLimited max r
to_result-ResultSized max none r h q = cc
to_result-ResultSized max (some (err e)) r h q = cc
to_result-ResultSized max (some (ok p)) r h q = page h.full
  where
    page : (p.next_page_token ≡ []) ⊎ (p.count ≡ max) → IsLimited max r
    page (inl e) = record {
      bounded = ground (arith, h.counted.counted, h.counted.bounded, q);
      full = inl (ground (arith, e, q));
    }
    page (inr e) = record {
      bounded = ground (arith, h.counted.counted, h.counted.bounded, q);
      full = inr (ground (arith, h.counted.counted, e, q));
    }

-- Whatever the bucket holds, a listing that returns a page has at most as many objects and common
-- prefixes as were asked for, or 1000 where the request asks for none, for fewer, or for more; and it has
-- exactly as many where it names a next page.
pub list_objects-limit :
    (env : Env) (fails : Faults) (req : ListRequest) (b : Bucket) (r : ListResult)
    → list_objects env fails req b ≡ some (ok r)
    → (length r.objects + length r.prefixes ≤ limit req.max_results)
      × ((r.next_page_token ≡ []) ⊎ (length r.objects + length r.prefixes ≡ limit req.max_results))
unfolding list_objects
list_objects-limit env fails req b r q =
    let max = max_results_of req.max_results in
    let sized =
      to_result-ResultSized max _ r
        (scan_loop-ResultSized max env fails req (prefix_successor req.prefix) b (max + 1)
          (first_name req) empty_page
          (record { counted = record { counted = refl; bounded = omega arith }; fresh = refl }))
        q in
    rw (sym (limit-max_results_of req.max_results)) (sized.bounded, sized.full)
