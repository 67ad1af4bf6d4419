-- ===== src/Store/Listing/Terminates.antt =====
-- The loop of `ListObjects` ends: every round but the last lists an entry.
use objectstorage.Prelude.{
  ℕ, zero, suc, ◌+◌, ◌<◌, ◌≤◌, Option, none, some, ltb, leb, List, [], ◌∷◌, ◌≡◌, ◌≢◌, refl, arith,
  length, inl, inr, Bool-cases,
}
use objectstorage.Prelude.Bytes.{Bytes, bytes_eq}
use objectstorage.Store.Types.{Result, ok, err, Env, ObjectInfo, ListRequest}
use objectstorage.Store.Bucket.{Bucket, Faults, query}
use objectstorage.Store.Successor.{prefix_successor}
use objectstorage.Store.Listing.{
  Page, push_object, Flow, stop, again, through, panic, common_prefix, scan_batch, place,
  after_batch, after_query, skip_group, batch_size, scan_loop, max_results_of, list_objects,
  to_result, empty_page, first_name,
}

-- How a batch moves the count of a page that is not full.
abbrev pub Counts : ℕ → List ObjectInfo → Page → Flow → Type 0
Counts max batch page (stop p) = p.count ≤ max
Counts max batch page (again next p) = (page.count < p.count) × (p.count ≤ max)
Counts max batch page (through p) = (p.count ≡ page.count + length batch) × (p.count ≤ max)
Counts max batch page panic = Unit

skip_group-Counts :
    (max : ℕ) (batch : List ObjectInfo) (cp : Bytes) (page : Page)
    → page.count < max
    → Counts max batch page (skip_group cp page)
skip_group-Counts max batch cp page h = elim (Bool-cases (bytes_eq (prefix_successor cp) [])) [
  | inl p ↦ rw p (omega arith)
  | inr p ↦ rw p (omega arith, omega arith)
]

shift-Counts :
    (max : ℕ) (o : ObjectInfo) (batch : List ObjectInfo) (page : Page) (flow : Flow)
    → Counts max batch (push_object o page) flow
    → Counts max (o ∷ batch) page flow
shift-Counts max o batch page (stop p) h = h
shift-Counts max o batch page (again next p) h = (omega arith, omega arith)
shift-Counts max o batch page (through p) h = (omega arith, omega arith)
shift-Counts max o batch page panic h = tt

place-Counts :
    (max : ℕ) (o : ObjectInfo) (batch : List ObjectInfo) (cp : Option Bytes) (page : Page)
    (rest : Flow)
    → page.count < max
    → Counts max batch (push_object o page) rest
    → Counts max (o ∷ batch) page (place cp page rest)
place-Counts max o batch none page rest h k = shift-Counts max o batch page rest k
place-Counts max o batch (some cp) page rest h k = skip_group-Counts max (o ∷ batch) cp page h

pub scan_batch-Counts :
    (prefix delimiter : Bytes) (max : ℕ) (batch : List ObjectInfo) (page : Page)
    → page.count ≤ max
    → Counts max batch page (scan_batch prefix delimiter max batch page)
unfolding scan_batch
scan_batch-Counts prefix delimiter max [] page h = (omega arith, h)
scan_batch-Counts prefix delimiter max (o ∷ batch) page h = elim (Bool-cases (leb max page.count)) [
  | inl full ↦ rw full h
  | inr free ↦ elim (Bool-cases (ltb (length o.name) (length prefix))) [
    | inl short ↦ rw (free, short) tt
    | inr long ↦
        rw (free, long)
          (place-Counts max o batch (common_prefix prefix delimiter o.name) page _ (ground arith)
            (scan_batch-Counts prefix delimiter max batch (push_object o page) (ground arith)))
  ]
]

module _ (max : ℕ) (page : Page) (go : Bytes → Page → Option (Result Page)) where
  after_batch-ne-none :
      (batch : List ObjectInfo) (flow : Flow)
      → Counts max batch page flow
      → ((next : Bytes) (p : Page) → page.count < p.count → p.count ≤ max → go next p ≢ none)
      → after_batch go batch flow ≢ none
  after_batch-ne-none batch (stop p) c h = ground arith
  after_batch-ne-none batch panic c h = ground arith
  after_batch-ne-none batch (again next p) c h = h next p c.0 c.1
  after_batch-ne-none batch (through p) c h = elim (Bool-cases (ltb (length batch) batch_size)) [
    | inl t ↦ rw t (ground arith)
    | inr t ↦ rw t (h _ p (ground arith) c.1)
  ]

  after_query-ne-none :
      (req : ListRequest) (r : Result (List ObjectInfo))
      → page.count ≤ max
      → ((next : Bytes) (p : Page) → page.count < p.count → p.count ≤ max → go next p ≢ none)
      → after_query go req max page r ≢ none
  after_query-ne-none req (err e) c h = ground arith
  after_query-ne-none req (ok batch) c h =
      after_batch-ne-none batch _ (scan_batch-Counts req.prefix req.delimiter max batch page c) h

scan_loop-ne-none :
    (env : Env) (fails : Faults) (req : ListRequest) (end : Bytes) (max : ℕ) (b : Bucket) (fuel : ℕ)
    (next : Bytes) (page : Page)
    → page.count ≤ max
    → max < fuel + page.count
    → scan_loop env fails req end max b fuel next page ≢ none
unfolding scan_loop
scan_loop-ne-none env fails req end max b zero next page c f = absurd (omega arith)
scan_loop-ne-none env fails req end max b (suc fuel) next page c f =
    elim (Bool-cases (fails query)) [
      | inl q ↦ rw q (ground arith)
      | inr q ↦ rw q (
          after_query-ne-none max page _ req _ c (λ next' p more le.
            scan_loop-ne-none env fails req end max b fuel next' p le (omega arith)))
    ]

to_result-ne-none : (r : Option (Result Page)) → r ≢ none → to_result r ≢ none
to_result-ne-none none h = absurd (h refl)
to_result-ne-none (some (ok p)) h = ground arith
to_result-ne-none (some (err e)) h = ground arith

-- For every request and bucket, and whatever calls fail, a listing returns: the fuel is enough.
pub list_objects-ne-none :
    (env : Env) (fails : Faults) (req : ListRequest) (b : Bucket)
    → list_objects env fails req b ≢ none
unfolding list_objects
list_objects-ne-none env fails req b = to_result-ne-none _ (
    scan_loop-ne-none env fails req (prefix_successor req.prefix) (max_results_of req.max_results) b
      (max_results_of req.max_results + 1) (first_name req) empty_page (omega arith) (omega arith))
