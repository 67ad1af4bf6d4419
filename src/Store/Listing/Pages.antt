-- ===== src/Store/Listing/Pages.antt =====
-- Pages of a listing without a delimiter: each takes up where the one before it ends.
use objectstorage.Prelude.{
  some, ℕ, zero, suc, ◌+◌, ◌≤◌, Bool, true, false, not, ◌&&◌, if◌then◌else◌, List, [], ◌∷◌, ◌++◌,
  append-nil, append_assoc, ◌≡◌, ◌≢◌, refl, ap, sym, ◌∙◌, arith, length, take, drop,
  take-append-drop,
}
use objectstorage.Prelude.Bytes.{
  Bytes, bytes_Eq, bytes_eq, bytes_lt, has_prefix, bytes_lt_irrefl, bytes_lt_trans, bytes_le_trans,
}
use objectstorage.Prelude.Dict.{IsUnique}
use objectstorage.Store.Bucket.{Bucket, Faults, query}
use objectstorage.Store.Successor.Range.{IsBytes}
use objectstorage.Store.Listing.Scan.{order_by-IsAscending}
use objectstorage.Store.Types.{Env, ok, ListResult, ObjectInfo, ListRequest}
use objectstorage.Store.Listing.{
  list_objects, scan_all, order_by, row_name, Page, push_object, common_prefix, max_results_of,
  empty_page,
}
use objectstorage.Store.Listing.Reference.{
  All, All-always, All-map, keep-keep, keep_ext, keep-All, keep_holds, length-keep, IsAscending,
  keep-IsAscending, walk,
}
use objectstorage.Store.Listing.Rounds.{from}
use objectstorage.Store.Listing.Correct.{asked, page_of, IsPlain, list_objects-page_of}

-- The name of the first object, the empty text if there is none.
abbrev pub name_of_first : List ObjectInfo → Bytes
name_of_first [] = []
name_of_first (o ∷ os) = o.name

module _ {A : Type 0} where
  take_nil : (k : ℕ) → take {A = A} k [] ≡ []
  take_nil zero = refl
  take_nil (suc k) = refl

  drop_nil : (k : ℕ) → drop {A = A} k [] ≡ []
  drop_nil zero = refl
  drop_nil (suc k) = refl

-- A page with room for `k` more entries takes the next `k` objects.
Takes : ℕ → List ObjectInfo → Page → Page → Type 0
Takes k os page p =
    (p.objects ≡ page.objects ++ take k os)
    × (p.prefixes ≡ page.prefixes)
    × (p.next_page_token ≡ name_of_first (drop k os))

nil-Takes : (k : ℕ) (page : Page) → page.next_page_token ≡ [] → Takes k [] page page
unfolding Takes
nil-Takes k page t = rw (take_nil k, drop_nil k) (sym (append-nil page.objects), refl, t)

walk_plain :
    (prefix : Bytes) (max k n : ℕ) (os : List ObjectInfo) (page : Page)
    → page.count + k ≡ max
    → length os ≤ n
    → page.next_page_token ≡ []
    → Takes k os page (walk prefix [] max n os page)
unfolding walk common_prefix bytes_eq Takes
walk_plain prefix max k zero [] page e len t = nil-Takes k page t
walk_plain prefix max k (suc n) [] page e len t = nil-Takes k page t
walk_plain prefix max k zero (o ∷ os) page e len t = absurd (omega arith)
walk_plain prefix max zero (suc n) (o ∷ os) page e len t = ground (arith, append-nil page.objects)
walk_plain prefix max (suc k) (suc n) (o ∷ os) page e len t = ground (
  arith,
  walk_plain prefix max k n os (push_object o page) (omega arith) (omega arith) t,
  append_assoc page.objects (o ∷ []) (take k os),
)

-- Without a delimiter, a page is the first of the objects that the request asks for, as many as it
-- may hold, it has no common prefixes, and its token names the object that follows, if there is one.
pub page_of-plain :
    (req : ListRequest) (os : List ObjectInfo)
    → req.delimiter ≡ []
    → ((page_of req os).objects ≡ take (max_results_of req.max_results) (asked req os))
      × ((page_of req os).prefixes ≡ [])
      × ((page_of req os).next_page_token
          ≡ name_of_first (drop (max_results_of req.max_results) (asked req os)))
unfolding Takes
page_of-plain req os e = rw e (
    walk_plain req.prefix (max_results_of req.max_results) (max_results_of req.max_results)
      (length os) (asked req os) empty_page (omega arith)
      (length-keep {0}
        (λ (o : ObjectInfo). has_prefix o.name req.prefix && not (bytes_lt o.name req.page_token))
        os)
      refl)

-- The request for the next page: the same, from the token on.
abbrev pub next_request : ListRequest → Bytes → ListRequest
next_request req token = record req { page_token = token }

first-All :
    (P : Bytes → Type 0) (k : ℕ) (os : List ObjectInfo)
    → All (λ o. P o.name) os
    → name_of_first (drop k os) ≢ []
    → P (name_of_first (drop k os))
first-All P k [] a h = absurd (h (ap name_of_first (drop_nil k)))
first-All P zero (o ∷ os) (p, a) h = p
first-All P (suc k) (o ∷ os) (p, a) h = first-All P k os a h

-- What is not before the first object behind the page is what is behind the page.
from-drop_first :
    (k : ℕ) (os : List ObjectInfo)
    → IsAscending os
    → name_of_first (drop k os) ≢ []
    → from (name_of_first (drop k os)) os ≡ drop k os
from-drop_first k [] a h = sym (drop_nil k)
from-drop_first zero (o ∷ os) (rise, a) h =
    rw (bytes_lt_irrefl o.name, if◌then◌else◌)
      (ap (λ (l : List ObjectInfo). o ∷ l)
        (keep-All _ os (
          All-map os
            (λ p lt. ground (arith, bytes_lt_trans o.name p.name o.name lt, bytes_lt_irrefl o.name))
            rise)))
from-drop_first (suc k) (o ∷ os) (rise, a) h =
    rw (first-All (λ n. bytes_lt o.name n ≡ true) k os rise h, if◌then◌else◌)
      (from-drop_first k os a h)

-- The rest of a page of `k` objects is what the next request asks for.
rest_asked :
    (req : ListRequest) (os : List ObjectInfo) (k : ℕ)
    → IsAscending os
    → name_of_first (drop k (asked req os)) ≢ []
    → asked (next_request req (name_of_first (drop k (asked req os)))) os ≡ drop k (asked req os)
rest_asked req os k a h =
    let wanted : ObjectInfo → Bool =
      λ o. has_prefix o.name req.prefix && not (bytes_lt o.name req.page_token) in
    let token : Bytes = name_of_first (drop k (asked req os)) in
    let late : bytes_lt token req.page_token ≡ false =
      first-All (λ n. bytes_lt n req.page_token ≡ false) k (asked req os)
        (All-map (asked req os) (λ o e. ground (arith, e)) (keep_holds wanted os)) h in
    sym (
      sym (from-drop_first k (asked req os) (keep-IsAscending wanted os a) h)
      ∙ keep-keep _ wanted os
      ∙ keep_ext _ _ os
          (All-always os (λ o. ground (arith, bytes_le_trans req.page_token token o.name late))))

-- What a page has left is what the next request asks for.
asked-next_request :
    (req : ListRequest) (os : List ObjectInfo)
    → req.delimiter ≡ []
    → IsAscending os
    → (page_of req os).next_page_token ≢ []
    → (page_of req os).objects ++ asked (next_request req (page_of req os).next_page_token) os
      ≡ asked req os
asked-next_request req os plain a h =
    let max = max_results_of req.max_results in
    let (objects, _, token) = page_of-plain req os plain in
    rw (objects, token)
      (ap (λ (l : List ObjectInfo). take max (asked req os) ++ l)
          (rest_asked req os max a (rw (token) at h))
        ∙ take-append-drop max (asked req os))

-- Where queries do not fail, every row can be read, the names are bytes, and the prefix ends in ASCII:
-- a listing without a delimiter that returns a token has listed the first of the objects asked for,
-- and the request with that token asks for exactly the others, so that following the tokens lists no
-- object twice and leaves none out.
pub list_objects-next_request :
    (env : Env) (fails : Faults) (req : ListRequest) (b : Bucket) (os : List ObjectInfo)
    (r : ListResult)
    → IsPlain req
    → req.delimiter ≡ []
    → fails query ≡ false
    → IsUnique b.objects
    → All (λ x. IsBytes (row_name x)) b.objects
    → scan_all env b.name (order_by row_name b.objects) ≡ ok os
    → list_objects env fails req b ≡ some (ok r)
    → r.next_page_token ≢ []
    → r.objects ++ asked (next_request req r.next_page_token) os ≡ asked req os
list_objects-next_request env fails req b os r p plain answers unique bytes read listed more =
    let page = list_objects-page_of env fails req b os p answers unique bytes read in
    let objects : (page_of req os).objects ≡ r.objects = ground (arith, page, listed) in
    let token : (page_of req os).next_page_token ≡ r.next_page_token =
      ground (arith, page, listed) in
    rw (← objects, ← token)
      (asked-next_request req os plain (order_by-IsAscending env b.name b.objects os unique read)
        (λ e. more (sym token ∙ e)))
