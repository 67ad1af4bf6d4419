-- ===== src/S3/Tests/Listings.antt =====
-- Listings of pkg/s3: a page of two objects of four, and what follows it.
use objectstorage.Prelude.{some, true, false, [], ◌∷◌, ◌++◌, ◌≡◌, ◌≢◌, refl, sym, subst, arith}
use objectstorage.Prelude.Bytes.{codes, bytes_Eq, bytes_eq, bytes_lt, has_prefix}
use objectstorage.Prelude.Dict.{get}
use objectstorage.Prelude.Int.{pos}
use objectstorage.Store.Types.{ok}
use objectstorage.Store.Bucket.{no_faults}
use objectstorage.Store.Successor.{prefix_successor, successor_loop}
use objectstorage.Store.Listing.{list_objects, common_prefix, max_results_of, to_result, empty_page}
use objectstorage.Store.Listing.Reference.{walk}
use objectstorage.Store.Listing.Correct.{asked, IsPlain}
use objectstorage.Store.Tests.Data.{plain_env, zoo_bucket, zoo_infos}
use objectstorage.Store.Tests.Listings.{
  flat, flat_result, flat-IsPlain, flat_listed, more_flat, zoo-IsUnique, zoo-IsBytes, scan_zoo,
}
use objectstorage.Http.{get_method, Request, query_get}
use objectstorage.Http.Text.{has_suffix}
use objectstorage.S3.Listing.{is_v2, list_request, v1_token, last_listed}
use objectstorage.S3.Listing.Pages.{v2_token-next, v1_token-next, list_objects-v1_token}
use objectstorage.S3.Tests.Data.{request}

abbrev first_page : Request
first_page = request get_method ((codes "prefix", codes "a/") ∷ []) [] []

first_page-flat : list_request first_page (pos 2) ≡ flat
unfolding list_request query_get get bytes_eq is_v2 v1_token
first_page-flat = refl

first_page-listed :
    list_objects plain_env no_faults (list_request first_page (pos 2)) zoo_bucket
    ≡ some (ok flat_result)
first_page-listed =
    subst (λ q. list_objects plain_env no_faults q zoo_bucket ≡ some (ok flat_result))
      (sym first_page-flat) flat_listed

first_page-IsPlain : IsPlain (list_request first_page (pos 2))
first_page-IsPlain = subst IsPlain (sym first_page-flat) flat-IsPlain

no_delimiter : query_get (codes "delimiter") first_page ≡ []
unfolding query_get get bytes_eq
no_delimiter = refl

abbrev v2_page : Request
v2_page =
    request get_method
      ((codes "prefix", codes "a/")
        ∷ (codes "list-type", codes "2")
        ∷ (codes "continuation-token", flat_result.next_page_token)
        ∷ [])
      [] []

v2_page-is_v2 : is_v2 v2_page ≡ true
unfolding is_v2 query_get get bytes_eq
v2_page-is_v2 = refl

v2_page-token : query_get (codes "continuation-token") v2_page ≡ flat_result.next_page_token
unfolding query_get get bytes_eq
v2_page-token = refl

v2_page-prefix : query_get (codes "prefix") v2_page ≡ query_get (codes "prefix") first_page
unfolding query_get get bytes_eq
v2_page-prefix = refl

v2_token-next_example :
    flat_result.objects ++ asked (list_request v2_page (pos 2)) zoo_infos
    ≡ asked (list_request first_page (pos 2)) zoo_infos
v2_token-next_example =
    v2_token-next plain_env no_faults first_page v2_page (pos 2) zoo_bucket zoo_infos flat_result
      first_page-IsPlain no_delimiter refl zoo-IsUnique zoo-IsBytes scan_zoo first_page-listed
      more_flat v2_page-prefix v2_page-is_v2 v2_page-token

abbrev v1_page : Request
v1_page =
    request get_method
      ((codes "prefix", codes "a/") ∷ (codes "marker", last_listed flat_result) ∷ []) [] []

v1_page-is_v1 : is_v2 v1_page ≡ false
unfolding is_v2 query_get get bytes_eq
v1_page-is_v1 = refl

v1_page-marker : query_get (codes "marker") v1_page ≡ last_listed flat_result
unfolding query_get get bytes_eq
v1_page-marker = refl

v1_page-delimiter : query_get (codes "delimiter") v1_page ≡ []
unfolding query_get get bytes_eq
v1_page-delimiter = refl

v1_page-prefix : query_get (codes "prefix") v1_page ≡ query_get (codes "prefix") first_page
unfolding query_get get bytes_eq
v1_page-prefix = refl

some_marker : last_listed flat_result ≢ []
unfolding last_listed bytes_lt walk has_prefix max_results_of common_prefix bytes_eq
some_marker = ground arith

v1_token-next_example :
    flat_result.objects ++ asked (list_request v1_page (pos 2)) zoo_infos
    ≡ asked (list_request first_page (pos 2)) zoo_infos
v1_token-next_example =
    v1_token-next plain_env no_faults first_page v1_page (pos 2) zoo_bucket zoo_infos flat_result
      first_page-IsPlain no_delimiter refl zoo-IsUnique zoo-IsBytes scan_zoo first_page-listed
      more_flat v1_page-prefix v1_page-is_v1 v1_page-delimiter v1_page-marker some_marker

-- The folder "a/" page by page, after the object "a/".
abbrev lost_page : Request
lost_page =
    request get_method
      ((codes "prefix", codes "a/")
        ∷ (codes "delimiter", codes "/")
        ∷ (codes "marker", codes "a/")
        ∷ [])
      [] []

lost_page-is_v1 : is_v2 lost_page ≡ false
unfolding is_v2 query_get get bytes_eq
lost_page-is_v1 = refl

lost_page-marker : query_get (codes "marker") lost_page ≡ query_get (codes "prefix") lost_page
unfolding query_get get bytes_eq
lost_page-marker = refl

lost_page-suffix :
    has_suffix (query_get (codes "marker") lost_page) (query_get (codes "delimiter") lost_page)
    ≡ true
unfolding query_get get bytes_eq has_suffix
lost_page-suffix = refl

lost_page-delimiter : query_get (codes "delimiter") lost_page ≢ []
unfolding query_get get bytes_eq
lost_page-delimiter = ground arith

lost_page-some : query_get (codes "marker") lost_page ≢ []
unfolding query_get get bytes_eq
lost_page-some = ground arith

lost_page-next : bytes_eq (prefix_successor (query_get (codes "prefix") lost_page)) [] ≡ false
unfolding query_get get bytes_eq prefix_successor successor_loop
lost_page-next = refl

lost_page-IsPlain : IsPlain (list_request lost_page (pos 1))
unfolding list_request query_get get bytes_eq v1_token prefix_successor
lost_page-IsPlain = record { prefix = refl; delimiter = refl }

list_objects-v1_token_example :
    list_objects plain_env no_faults (list_request lost_page (pos 1)) zoo_bucket
    ≡ to_result (some (ok empty_page))
list_objects-v1_token_example =
    list_objects-v1_token plain_env no_faults lost_page (pos 1) zoo_bucket zoo_infos
      lost_page-IsPlain lost_page-is_v1 lost_page-marker lost_page-suffix lost_page-delimiter
      lost_page-some lost_page-next refl zoo-IsUnique zoo-IsBytes scan_zoo
