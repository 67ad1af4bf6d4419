-- ===== src/S3/Listing/Pages.antt =====
-- How the pages of a listing of pkg/s3 follow each other.
use objectstorage.Prelude.{
  ℕ, zero, suc, ◌≤◌, ◌-◌, some, Bool, true, false, not, ◌&&◌, if◌then◌else◌, List, [], ◌∷◌, ◌++◌,
  length, take, drop, keep, ◌≡◌, ◌≢◌, refl, sym, ap, ◌∙◌, arith, take-append-drop,
}
use objectstorage.Prelude.Bytes.{
  Bytes, codes, bytes_Eq, bytes_eq, bytes_lt, bytes_lt_trans, bytes_le_trans, has_prefix,
  bytes_eq_iff, bytes_lt_irrefl,
}
use objectstorage.Prelude.Dict.{IsUnique}
use objectstorage.Prelude.Int.{ℤ, pos, negsuc}
use objectstorage.Store.Types.{Env, ok, ObjectInfo, ListRequest, ListResult}
use objectstorage.Store.Bucket.{Bucket, Faults, query}
use objectstorage.Store.Successor.{prefix_successor, in_range}
use objectstorage.Store.Successor.Range.{
  IsBytes, raises_ascii, in_range-prefix_successor, not_lt_nil,
}
use objectstorage.Store.Listing.{
  list_objects, scan_all, order_by, row_name, last_name, max_results_of, Page, empty_page,
  to_result,
}
use objectstorage.Store.Listing.Names.{lt-above}
use objectstorage.Store.Listing.Batches.{from-drop}
use objectstorage.Store.Listing.Reference.{
  All, All-always, All-map, keep-keep, keep_ext, keep_holds, IsAscending, keep-IsAscending, walk,
}
use objectstorage.Store.Listing.Rounds.{from}
use objectstorage.Store.Listing.Scan.{scan_all-All, order_by-All, order_by-IsAscending}
use objectstorage.Store.Listing.Correct.{asked, IsPlain, list_objects-page_of}
use objectstorage.Store.Listing.Pages.{
  name_of_first, page_of-plain, next_request, list_objects-next_request,
}
use objectstorage.Http.{Request, query_get}
use objectstorage.Http.Text.{has_suffix}
use objectstorage.S3.Listing.{is_v2, v1_token, v2_token, list_request, last_of, last_listed}

last_of-last_name : (os : List ObjectInfo) → last_of (λ (o : ObjectInfo). o.name) os ≡ last_name os
last_of-last_name [] = refl
last_of-last_name (o ∷ []) = refl
last_of-last_name (o ∷ p ∷ os) = last_of-last_name (p ∷ os)

last-All :
    (P : Bytes → Type 0) (k : ℕ) (os : List ObjectInfo)
    → All (λ o. P o.name) os
    → suc k ≤ length os
    → P (last_name (take (suc k) os))
last-All P k [] a h = absurd (omega arith)
last-All P zero (o ∷ os) (p, a) h = p
last-All P (suc k) (o ∷ []) a h = absurd (omega arith)
last-All P (suc k) (o ∷ q ∷ os) (p, a) h = last-All P k (q ∷ os) a (omega arith)

-- A later token asks for what is not before it of what was asked for.
asked-from :
    (req : ListRequest) (os : List ObjectInfo) (token : Bytes)
    → bytes_lt token req.page_token ≡ false
    → asked (next_request req token) os ≡ from token (asked req os)
asked-from req os token late =
    let wanted : ObjectInfo → Bool =
      λ o. has_prefix o.name req.prefix && not (bytes_lt o.name req.page_token) in
    let after : ObjectInfo → Bool = λ o. not (bytes_lt o.name token) in
    sym (
      keep-keep after wanted os
      ∙ keep_ext (λ o. wanted o && after o) (λ o. has_prefix o.name req.prefix && after o) os
          (All-always os (λ o. ground (arith, bytes_le_trans req.page_token token o.name late))))

-- Behind the last of `k + 1` objects come the others.
asked-above :
    (req : ListRequest) (os : List ObjectInfo) (k : ℕ)
    → IsAscending os
    → suc k ≤ length (asked req os)
    → asked (next_request req (last_name (take (suc k) (asked req os)) ++ 0 ∷ [])) os
      ≡ drop (suc k) (asked req os)
asked-above req os k a h =
    let wanted : ObjectInfo → Bool =
      λ o. has_prefix o.name req.prefix && not (bytes_lt o.name req.page_token) in
    let last : Bytes = last_name (take (suc k) (asked req os)) in
    let reached : bytes_lt last req.page_token ≡ false =
      last-All (λ n. bytes_lt n req.page_token ≡ false) k (asked req os)
        (All-map (asked req os) (λ o e. ground (arith, e)) (keep_holds wanted os)) h in
    let late : bytes_lt (last ++ 0 ∷ []) req.page_token ≡ false = ground (
      arith,
      reached,
      lt-above last last,
      bytes_lt_irrefl last,
      bytes_lt_trans last (last ++ 0 ∷ []) req.page_token,
    ) in
    let (_, rest) = from-drop k (asked req os) h (keep-IsAscending wanted os a) in
    asked-from req os (last ++ 0 ∷ []) late ∙ rest

keep-none {ℓ} :
    {A : Type ℓ} (p : A → Bool) (xs : List A) → All (λ x. p x ≡ false) xs → keep p xs ≡ []
keep-none p [] h = refl
keep-none p (x ∷ xs) (h, hs) = rw (h, if◌then◌else◌) (keep-none p xs hs)

positive_max : (n : ℤ) → (k : ℕ) × (max_results_of n ≡ suc k)
unfolding max_results_of
positive_max (pos n) = (max_results_of (pos n) - 1, ground arith)
positive_max (negsuc n) = (max_results_of (negsuc n) - 1, ground arith)

drop-length : (k : ℕ) (os : List ObjectInfo) → name_of_first (drop k os) ≢ [] → suc k ≤ length os
drop-length zero [] h = absurd (h refl)
drop-length (suc k) [] h = absurd (h refl)
drop-length zero (o ∷ os) h = omega arith
drop-length (suc k) (o ∷ os) h = omega (arith, drop-length k os h)

module _ (env : Env) (fails : Faults) (r r' : Request) (max : ℤ) (b : Bucket) (os : List ObjectInfo)
    (result : ListResult) (p : IsPlain (list_request r max))
    (plain : query_get (codes "delimiter") r ≡ []) (answers : fails query ≡ false)
    (unique : IsUnique b.objects) (bytes : All (λ x. IsBytes (row_name x)) b.objects)
    (read : scan_all env b.name (order_by row_name b.objects) ≡ ok os)
    (listed : list_objects env fails (list_request r max) b ≡ some (ok result))
    (more : result.next_page_token ≢ [])
    (same_prefix : query_get (codes "prefix") r' ≡ query_get (codes "prefix") r) where
  -- A page of a listing without a delimiter is followed by more. Where queries do not fail, every row can
  -- be read, the names are bytes and the prefix ends in ASCII: the objects of the page and those that a
  -- request of version 2 with the same prefix, and the page's token as its continuation token, asks for
  -- are, one after the other, those that the first request asks for.
  pub v2_token-next :
      is_v2 r' ≡ true
      → query_get (codes "continuation-token") r' ≡ result.next_page_token
      → result.objects ++ asked (list_request r' max) os ≡ asked (list_request r max) os
  unfolding list_request v2_token
  v2_token-next v2 token =
      let some_token : bytes_eq result.next_page_token [] ≡ false =
        ground (arith, bytes_eq_iff result.next_page_token [], more) in
      let rest =
        list_objects-next_request env fails (list_request r max) b os result p plain answers unique
          bytes read listed more in
      simp (v2, token, some_token, same_prefix) rest

  last_listed-plain : result.prefixes ≡ [] → last_listed result ≡ last_name result.objects
  unfolding last_listed
  last_listed-plain e = rw (e, not_lt_nil, last_of-last_name result.objects) refl

  request-next :
      is_v2 r' ≡ false
      → query_get (codes "delimiter") r' ≡ []
      → query_get (codes "marker") r' ≡ last_listed result
      → last_listed result ≢ []
      → list_request r' max ≡ next_request (list_request r max) (last_listed result ++ 0 ∷ [])
  unfolding list_request v1_token bytes_eq
  request-next v1 plain' marker some_marker =
      let some_token : bytes_eq (last_listed result) [] ≡ false =
        ground (arith, bytes_eq_iff (last_listed result) [], some_marker) in
      simp (v1, plain', plain, marker, some_token, same_prefix) refl

  -- A page of a listing without a delimiter is followed by more. Where queries do not fail, every row can
  -- be read, the names are bytes and the prefix ends in ASCII: the objects of the page and those that a
  -- request of version 1 with the same prefix and no delimiter, and the page's last name, which is not
  -- empty, as its marker, asks for are, one after the other, those that the first request asks for.
  pub v1_token-next :
      is_v2 r' ≡ false
      → query_get (codes "delimiter") r' ≡ []
      → query_get (codes "marker") r' ≡ last_listed result
      → last_listed result ≢ []
      → result.objects ++ asked (list_request r' max) os ≡ asked (list_request r max) os
  v1_token-next v1 plain' marker some_marker =
      let req = list_request r max in
      let (k, size) = positive_max req.max_results in
      let page = list_objects-page_of env fails req b os p answers unique bytes read in
      let (objects, prefixes, token) = page_of-plain req os (unfold list_request in plain) in
      let wanted = asked req os in
      let taken : result.objects ≡ take (suc k) wanted =
        ground (arith, page, listed, objects, size) in
      let none_common : result.prefixes ≡ [] = ground (arith, page, listed, prefixes) in
      let behind : name_of_first (drop (suc k) wanted) ≡ result.next_page_token =
        ground (arith, page, listed, token, size) in
      let long = drop-length (suc k) wanted (λ e. more (sym behind ∙ e)) in
      let last : last_listed result ≡ last_name (take (suc k) wanted) =
        last_listed-plain none_common ∙ ap last_name taken in
      let next : list_request r' max ≡ next_request req (last_listed result ++ 0 ∷ []) =
        request-next v1 plain' marker some_marker in
      ap (λ l. l ++ asked (list_request r' max) os) taken
      ∙ ap (λ q. take (suc k) wanted ++ asked q os)
          (next ∙ ap (λ t. next_request req (t ++ 0 ∷ [])) last)
      ∙ ap (λ l. take (suc k) wanted ++ l)
          (asked-above req os k (order_by-IsAscending env b.name b.objects os unique read)
            (omega (arith, long)))
      ∙ take-append-drop (suc k) wanted

-- A marker that ends in the delimiter and is the prefix itself asks for no object.
asked-lost :
    (r : Request) (max : ℤ) (os : List ObjectInfo)
    → is_v2 r ≡ false
    → query_get (codes "marker") r ≡ query_get (codes "prefix") r
    → has_suffix (query_get (codes "marker") r) (query_get (codes "delimiter") r) ≡ true
    → query_get (codes "delimiter") r ≢ []
    → query_get (codes "marker") r ≢ []
    → bytes_eq (prefix_successor (query_get (codes "prefix") r)) [] ≡ false
    → raises_ascii (query_get (codes "prefix") r) ≡ true
    → All (λ o. IsBytes o.name) os
    → asked (list_request r max) os ≡ []
unfolding list_request v1_token in_range
asked-lost r max os v1 same suffix some_delimiter some_marker next raises bytes =
    let prefix = query_get (codes "prefix") r in
    let marked : bytes_eq prefix [] ≡ false =
      ground (arith, same, bytes_eq_iff prefix [], some_marker) in
    let delimited : bytes_eq (query_get (codes "delimiter") r) [] ≡ false =
      ground (arith, bytes_eq_iff (query_get (codes "delimiter") r) [], some_delimiter) in
    let suffix' : has_suffix prefix (query_get (codes "delimiter") r) ≡ true =
      ground (arith, same, suffix) in
    simp (v1, same, suffix', marked, delimited)
      (keep-none
        (λ (o : ObjectInfo).
          has_prefix o.name prefix && not (bytes_lt o.name (prefix_successor prefix)))
        os
        (All-map os (λ o k. ground (arith, next, in_range-prefix_successor prefix o.name raises k))
          bytes))

walk-nil :
    (prefix delimiter : Bytes) (max n : ℕ) (page : Page)
    → walk prefix delimiter max n [] page ≡ page
unfolding walk
walk-nil prefix delimiter max zero page = refl
walk-nil prefix delimiter max (suc n) page = refl

-- A request of version 1 whose marker is its prefix, as it is behind an object whose name is the prefix,
-- and ends in its delimiter. Where queries do not fail, every row can be read, the names are bytes, and
-- the prefix and the delimiter end in ASCII: the listing is empty and has no next page, whatever objects
-- with longer names are in the bucket.
pub list_objects-v1_token :
    (env : Env) (fails : Faults) (r : Request) (max : ℤ) (b : Bucket) (os : List ObjectInfo)
    → IsPlain (list_request r max)
    → is_v2 r ≡ false
    → query_get (codes "marker") r ≡ query_get (codes "prefix") r
    → has_suffix (query_get (codes "marker") r) (query_get (codes "delimiter") r) ≡ true
    → query_get (codes "delimiter") r ≢ []
    → query_get (codes "marker") r ≢ []
    → bytes_eq (prefix_successor (query_get (codes "prefix") r)) [] ≡ false
    → fails query ≡ false
    → IsUnique b.objects
    → All (λ x. IsBytes (row_name x)) b.objects
    → scan_all env b.name (order_by row_name b.objects) ≡ ok os
    → list_objects env fails (list_request r max) b ≡ to_result (some (ok empty_page))
list_objects-v1_token env fails r max b os p v1 same suffix delimiter marker next answers unique
      bytes read =
    let req = list_request r max in
    let names =
      scan_all-All env b.name IsBytes (order_by row_name b.objects) os read
        (order_by-All row_name (λ x. IsBytes (row_name x)) b.objects bytes) in
    let nothing =
      asked-lost r max os v1 same suffix delimiter marker next (unfold list_request in p.prefix)
        names in
    list_objects-page_of env fails req b os p answers unique bytes read
    ∙ ap
        (λ l. to_result (
          some (
            ok (
              walk req.prefix req.delimiter (max_results_of req.max_results) (length os) l
                empty_page))))
        nothing
    ∙ ap (λ x. to_result (some (ok x)))
        (walk-nil req.prefix req.delimiter (max_results_of req.max_results) (length os) empty_page)
