-- ===== src/Store/Tests/Listings.antt =====
-- Listing objects: prefixes, pages, bounds.
use objectstorage.Prelude.{
  ◌⊎◌, ◌+◌, ◌≤◌, length, none, some, true, false, [], ◌∷◌, ◌≡◌, ◌≢◌, refl, arith,
}
use objectstorage.Prelude.Bytes.{codes, bytes_Eq, bytes_eq, bytes_lt, has_prefix, index}
use objectstorage.Prelude.Dict.{IsUnique, get}
use objectstorage.Prelude.Int.{pos}
use objectstorage.Store.Types.{ok, ListRequest, ListResult}
use objectstorage.Store.Bucket.{no_faults, scan_object}
use objectstorage.Store.Successor.{prefix_successor, in_range, successor_loop}
use objectstorage.Store.Successor.Range.{in_range-foreign, raises_ascii, IsBytes}
use objectstorage.Store.Listing.{
  list_objects, scan_all, order_by, row_name, to_result, max_results_of, common_prefix,
}
use objectstorage.Store.Listing.Reference.{All, walk}
use objectstorage.Store.Listing.Correct.{page_of, IsPlain, list_objects-page_of}
use objectstorage.Store.Listing.Terminates.{list_objects-ne-none}
use objectstorage.Store.Listing.Sized.{list_objects-limit}
use objectstorage.Store.Tests.Data.{plain_env, zoo_bucket, zoo_infos}

-- What a directory listing asks.
abbrev folders : ListRequest
folders = record {
  prefix = codes "a/";
  delimiter = codes "/";
  page_token = [];
  max_results = pos 2;
}

abbrev pub flat : ListRequest
flat = record { prefix = codes "a/"; delimiter = []; page_token = []; max_results = pos 2 }

folders-IsPlain : IsPlain folders
unfolding prefix_successor successor_loop bytes_eq
folders-IsPlain = record { prefix = refl; delimiter = refl }

pub scan_zoo :
    scan_all plain_env zoo_bucket.name (order_by row_name zoo_bucket.objects) ≡ ok zoo_infos
unfolding scan_all order_by bytes_lt scan_object bytes_eq
scan_zoo = refl

pub zoo-IsUnique : IsUnique zoo_bucket.objects
unfolding get bytes_eq
zoo-IsUnique = (refl, (refl, (refl, (refl, tt))))

pub zoo-IsBytes : All (λ r. IsBytes (row_name r)) zoo_bucket.objects
zoo-IsBytes = ground arith

list_objects-page_of_example :
    list_objects plain_env no_faults folders zoo_bucket
    ≡ to_result (some (ok (page_of folders zoo_infos)))
list_objects-page_of_example =
    list_objects-page_of plain_env no_faults folders zoo_bucket zoo_infos folders-IsPlain refl
      zoo-IsUnique zoo-IsBytes scan_zoo

-- The page is one object and one folder, and more follows.
folders_page : (page_of folders zoo_infos).prefixes ≡ codes "a/b/" ∷ []
unfolding walk has_prefix bytes_lt max_results_of common_prefix bytes_eq index
folders_page = refl

list_objects-ne-none_example : list_objects plain_env no_faults folders zoo_bucket ≢ none
list_objects-ne-none_example = list_objects-ne-none plain_env no_faults folders zoo_bucket

pub more_flat : (page_of flat zoo_infos).next_page_token ≢ []
unfolding walk has_prefix bytes_lt max_results_of common_prefix bytes_eq
more_flat = ground arith

pub flat-IsPlain : IsPlain flat
unfolding prefix_successor successor_loop bytes_eq
flat-IsPlain = record { prefix = refl; delimiter = refl }

abbrev pub flat_result : ListResult
flat_result = record {
  objects = (page_of flat zoo_infos).objects;
  prefixes = (page_of flat zoo_infos).prefixes;
  next_page_token = (page_of flat zoo_infos).next_page_token;
}

pub flat_listed : list_objects plain_env no_faults flat zoo_bucket ≡ some (ok flat_result)
flat_listed =
    list_objects-page_of plain_env no_faults flat zoo_bucket zoo_infos flat-IsPlain refl
      zoo-IsUnique zoo-IsBytes scan_zoo

list_objects-limit_example :
    (length flat_result.objects + length flat_result.prefixes ≤ 2)
    × ((flat_result.next_page_token ≡ [])
        ⊎ (length flat_result.objects + length flat_result.prefixes ≡ 2))
list_objects-limit_example =
    list_objects-limit plain_env no_faults flat zoo_bucket flat_result flat_listed

pub ascii_prefix : raises_ascii (codes "a/") ≡ true
unfolding prefix_successor successor_loop bytes_eq
ascii_prefix = refl

-- The prefix is "é" and the name "ê", in UTF-8.
in_range-foreign_example :
    (in_range (195 ∷ 169 ∷ []) (prefix_successor (195 ∷ 169 ∷ [])) (195 ∷ 170 ∷ []) ≡ true)
    × (has_prefix (195 ∷ 170 ∷ []) (195 ∷ 169 ∷ []) ≡ false)
in_range-foreign_example =
    in_range-foreign (195 ∷ []) [] 169 170 (omega arith) (omega arith) (omega arith)
