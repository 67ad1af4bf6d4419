-- ===== src/Store/Listing.antt =====
-- `ListObjects` of pkg/store/bucket.go.
pub mod Terminates
pub mod Sized
pub mod Names
pub mod Reference
pub mod Rounds
pub mod Scan
pub mod Batches
pub mod Refines
pub mod Correct
pub mod Pages
use objectstorage.Prelude.{
  ℕ, zero, suc, ◌+◌, ◌-◌, ◌<◌, ◌≤◌, Option, none, some, Bool, true, false, not, ◌&&◌, ◌||◌,
  if◌then◌else◌, ltb, leb, ◌==◌, List, [], ◌∷◌, ◌++◌, length, take, drop, keep, arith,
}
use objectstorage.Prelude.Bytes.{Bytes, bytes_eq, bytes_lt, has_prefix, index}
use objectstorage.Prelude.Dict.{Dict}
use objectstorage.Prelude.Int.{ℤ, pos, negsuc}
use objectstorage.Store.Types.{
  Error, call_failed, panicked, Result, ok, err, ◌>>=◌, ◌>>◌, unless, Env, ObjectInfo, ListRequest,
  ListResult,
}
use objectstorage.Store.Bucket.{ObjectRow, Bucket, Faults, query, scan_object}
use objectstorage.Store.Successor.{prefix_successor, in_range}

abbrev pub default_max_results : ℕ
default_max_results = 1000

abbrev pub batch_size : ℕ
batch_size = 1000

-- `ORDER BY name`
abbrev pub insert_row {ℓ} : {A : Type ℓ} → (A → Bytes) → A → List A → List A
insert_row name r [] = r ∷ []
insert_row name r (x ∷ xs) =
    let rest = insert_row name r xs in if bytes_lt (name r) (name x) then r ∷ x ∷ xs else x ∷ rest

unfoldable pub order_by {ℓ} : {A : Type ℓ} → (A → Bytes) → List A → List A
order_by name [] = []
order_by name (x ∷ xs) = insert_row name x (order_by name xs)

abbrev pub row_name : Bytes × ObjectRow → Bytes
row_name (name, row) = name

-- `SELECT … WHERE … ORDER BY name LIMIT ?`
unfoldable pub select_range : Bytes → Bytes → ℕ → Dict Bytes ObjectRow → List (Bytes × ObjectRow)
select_range next end limit objects =
    take limit (keep (λ r. in_range next end (row_name r)) (order_by row_name objects))

unfoldable pub scan_all : Env → Bytes → List (Bytes × ObjectRow) → Result (List ObjectInfo)
scan_all env bucket [] = ok []
scan_all env bucket ((name, row) ∷ rows) = do
  found ← scan_object env bucket name row
  rest ← scan_all env bucket rows
  ok (found ∷ rest)

-- The result so far, and `count`.
pub record Page : Type 0 where
  pub objects : List ObjectInfo
  pub prefixes : List Bytes
  pub next_page_token : Bytes
  pub count : ℕ

abbrev pub push_object : ObjectInfo → Page → Page
push_object o page = record page { objects = page.objects ++ o ∷ []; count = page.count + 1 }

abbrev pub push_prefix : Bytes → Page → Page
push_prefix cp page = record page { prefixes = page.prefixes ++ cp ∷ []; count = page.count + 1 }

-- How the loop over a batch ends: with `break scan`, with `continue scan` and its `next`, at the end
-- of the batch, or in a panic.
pub data Flow : Type 0 where
  stop : Page → Flow
  again : Bytes → Page → Flow
  through : Page → Flow
  panic : Flow

-- The common prefix of a name, `none` if it is listed by itself.
abbrev common : Bytes → Bytes → Bytes → Option ℕ → Option Bytes
common prefix delimiter rest none = none
common prefix delimiter rest (some idx) = some (prefix ++ take (idx + length delimiter) rest)

unfoldable pub common_prefix : Bytes → Bytes → Bytes → Option Bytes
common_prefix prefix delimiter name =
    let rest = drop (length prefix) name in
    if bytes_eq delimiter [] then none else common prefix delimiter rest (index rest delimiter)

-- What follows a common prefix: the next round goes on behind its group.
abbrev pub skip_group : Bytes → Page → Flow
skip_group cp page =
    if bytes_eq (prefix_successor cp) []
    then stop (push_prefix cp page)
    else again (prefix_successor cp) (push_prefix cp page)

-- An object goes on to the rest of the batch; a common prefix ends the round.
abbrev pub place : Option Bytes → Page → Flow → Flow
place none page rest = rest
place (some cp) page rest = skip_group cp page

unfoldable pub scan_batch : Bytes → Bytes → ℕ → List ObjectInfo → Page → Flow
scan_batch prefix delimiter max [] page = through page
scan_batch prefix delimiter max (o ∷ batch) page =
    let rest = scan_batch prefix delimiter max batch (push_object o page) in
    if leb max page.count
    then stop (record page { next_page_token = o.name })
    else if ltb (length o.name) (length prefix)
    then panic
    else place (common_prefix prefix delimiter o.name) page rest

abbrev pub last_name : List ObjectInfo → Bytes
last_name [] = []
last_name (o ∷ []) = o.name
last_name (o ∷ p ∷ batch) = last_name (p ∷ batch)

-- What follows a batch, where `go` is the next round.
abbrev pub after_batch :
    (Bytes → Page → Option (Result Page)) → List ObjectInfo → Flow → Option (Result Page)
after_batch go batch (stop p) = some (ok p)
after_batch go batch panic = some (err panicked)
after_batch go batch (again next p) = go next p
after_batch go batch (through p) =
    if ltb (length batch) batch_size then some (ok p) else go (last_name batch ++ 0 ∷ []) p

abbrev pub after_query :
    (Bytes → Page → Option (Result Page))
    → ListRequest
    → ℕ
    → Page
    → Result (List ObjectInfo)
    → Option (Result Page)
after_query go req max page (err e) = some (err e)
after_query go req max page (ok batch) =
    after_batch go batch (scan_batch req.prefix req.delimiter max batch page)

-- The outer loop on fuel; `none` means that it ran out.
unfoldable pub scan_loop :
    Env → Faults → ListRequest → Bytes → ℕ → Bucket → ℕ → Bytes → Page → Option (Result Page)
scan_loop env fails req end max b zero next page = none
scan_loop env fails req end max b (suc fuel) next page =
    if fails query
    then some (err call_failed)
    else after_query (λ next' p. scan_loop env fails req end max b fuel next' p) req max page
        (scan_all env b.name (select_range next end batch_size b.objects))

unfoldable pub max_results_of : ℤ → ℕ
max_results_of (pos n) = if n == 0 || ltb default_max_results n then default_max_results else n
max_results_of (negsuc n) = default_max_results

abbrev pub first_name : ListRequest → Bytes
first_name req = if bytes_lt req.prefix req.page_token then req.page_token else req.prefix

abbrev pub empty_page : Page
empty_page = record { objects = []; prefixes = []; next_page_token = []; count = 0 }

abbrev pub to_result : Option (Result Page) → Option (Result ListResult)
to_result none = none
to_result (some (err e)) = some (err e)
to_result (some (ok p)) = some (
    ok (record { objects = p.objects; prefixes = p.prefixes; next_page_token = p.next_page_token }))

-- Each round but the last lists an entry, so that the page's size and one more is fuel enough.
unfoldable pub list_objects : Env → Faults → ListRequest → Bucket → Option (Result ListResult)
list_objects env fails req b =
    let max = max_results_of req.max_results in
    to_result (
      scan_loop env fails req (prefix_successor req.prefix) max b (max + 1) (first_name req)
        empty_page)
