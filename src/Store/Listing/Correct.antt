-- ===== src/Store/Listing/Correct.antt =====
-- What `ListObjects` returns: the page of the objects that have the prefix, from the token on.
use objectstorage.Prelude.{
  ◌+◌, some, true, false, not, ◌&&◌, ◌||◌, if◌then◌else◌, List, [], ◌≡◌, ap, ◌∙◌, arith, length,
  keep, Bool-cases, inl, inr,
}
use objectstorage.Prelude.Bytes.{
  bytes_Eq, bytes_eq, bytes_lt, has_prefix, bytes_lt_irrefl, bytes_lt_trans, bytes_le_trans,
}
use objectstorage.Prelude.Dict.{IsUnique}
use objectstorage.Store.Types.{ok, Env, ObjectInfo, ListRequest}
use objectstorage.Store.Bucket.{Bucket, Faults, query}
use objectstorage.Store.Successor.{prefix_successor, in_range}
use objectstorage.Store.Successor.Range.{raises_ascii, IsBytes, in_range-prefix_successor}
use objectstorage.Store.Listing.{
  Page, order_by, row_name, scan_all, max_results_of, first_name, empty_page, to_result,
  list_objects,
}
use objectstorage.Store.Listing.Names.{ends_ascii}
use objectstorage.Store.Listing.Reference.{All, All-map, keep_ext, length-keep, walk}
use objectstorage.Store.Listing.Scan.{scan_all-All, order_by-All, order_by-IsAscending}
use objectstorage.Store.Listing.Refines.{scan_loop-Lists}

-- The objects that a request asks for, of all those of the bucket in order.
abbrev pub asked : ListRequest → List ObjectInfo → List ObjectInfo
asked req os = keep (λ o. has_prefix o.name req.prefix && not (bytes_lt o.name req.page_token)) os

-- The page of a request: one pass over the objects that it asks for.
abbrev pub page_of : ListRequest → List ObjectInfo → Page
page_of req os =
    walk req.prefix req.delimiter (max_results_of req.max_results) (length os) (asked req os)
      empty_page

-- What the exact bounds rest on: the prefix and the delimiter end in ASCII.
pub record IsPlain (req : ListRequest) : Type 0 where
  pub prefix : raises_ascii req.prefix ≡ true
  pub delimiter : (bytes_eq req.delimiter [] || ends_ascii req.delimiter) ≡ true

first-low : (req : ListRequest) → bytes_lt (first_name req) req.prefix ≡ false
first-low req = elim (Bool-cases (bytes_lt req.prefix req.page_token)) [
  | inl h ↦
      rw (h, if◌then◌else◌)
        (ground (
          arith,
          bytes_lt_trans req.prefix req.page_token req.prefix h,
          bytes_lt_irrefl req.prefix,
        ))
  | inr h ↦ rw (h, if◌then◌else◌) (bytes_lt_irrefl req.prefix)
]

first-asked :
    (req : ListRequest) (os : List ObjectInfo)
    → IsPlain req
    → All (λ o. IsBytes o.name) os
    → keep (λ o. in_range (first_name req) (prefix_successor req.prefix) o.name) os ≡ asked req os
unfolding in_range
first-asked req os p b =
    keep_ext _ _ os
      (All-map os (λ o k. same o (in_range-prefix_successor req.prefix o.name p.prefix k)) b)
  where
    same :
        (o : ObjectInfo)
        → in_range req.prefix (prefix_successor req.prefix) o.name ≡ has_prefix o.name req.prefix
        → in_range (first_name req) (prefix_successor req.prefix) o.name
          ≡ (has_prefix o.name req.prefix && not (bytes_lt o.name req.page_token))
    same o e = ground (
      arith,
      e,
      bytes_lt_trans o.name req.prefix req.page_token,
      bytes_le_trans req.page_token req.prefix o.name,
      bytes_le_trans req.prefix req.page_token o.name,
      bytes_lt_trans req.prefix req.page_token req.prefix,
      bytes_lt_irrefl req.prefix,
    )

-- Where queries do not fail, every row can be read, the names are bytes, and the prefix and the
-- delimiter end in ASCII, a listing returns the page that one pass over the objects asked for gives:
-- batches, bounds and skipped groups do not show.
pub list_objects-page_of :
    (env : Env) (fails : Faults) (req : ListRequest) (b : Bucket) (os : List ObjectInfo)
    → IsPlain req
    → fails query ≡ false
    → IsUnique b.objects
    → All (λ r. IsBytes (row_name r)) b.objects
    → scan_all env b.name (order_by row_name b.objects) ≡ ok os
    → list_objects env fails req b ≡ to_result (some (ok (page_of req os)))
unfolding list_objects
list_objects-page_of env fails req b os p answers unique bytes read =
    let max = max_results_of req.max_results in
    let names =
      scan_all-All env b.name IsBytes (order_by row_name b.objects) os read
        (order_by-All row_name (λ r. IsBytes (row_name r)) b.objects bytes) in
    let same = first-asked req os p names in
    ap to_result (
      scan_loop-Lists env fails req max b os answers read
        (order_by-IsAscending env b.name b.objects os unique read) names p.prefix p.delimiter
        (max + 1) (length os) (first_name req) empty_page (first-low req) (omega arith)
        (omega arith)
        (length-keep {0}
          (λ (o : ObjectInfo). in_range (first_name req) (prefix_successor req.prefix) o.name) os)
      ∙ ap
          (λ (l : List ObjectInfo).
            some (ok (walk req.prefix req.delimiter max (length os) l empty_page)))
          same)
