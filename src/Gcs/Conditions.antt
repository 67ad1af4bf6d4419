-- ===== src/Gcs/Conditions.antt =====
-- Preconditions and generations of a request: parseConditions of pkg/gcs/server.go, checkGenerationParam
-- and checkReadConditions of pkg/gcs/objects.go, the latter against `Conditions.check` of pkg/store/types.go.
pub mod Params
use objectstorage.Prelude.{Option, none, some, if◌then◌else◌, List, [], ◌∷◌, ◌≡◌, arith}
use objectstorage.Prelude.Bytes.{Bytes, codes, bytes_eq}
use objectstorage.Prelude.Int.{ℤ, ◌==ℤ◌}
use objectstorage.Http.{Request, query_get}
use objectstorage.Http.Text.{atoi}
use objectstorage.Store.Types.{
  Error, precondition_failed, invalid_name, object_not_found, ObjectInfo, Conditions,
}
use objectstorage.Store.Conditions.{differs, coincides, check}

abbrev pub given : Option ℤ → Option (Option ℤ)
given none = none
given (some n) = some (some n)

-- An empty parameter is none; `none` where it is no number of 64 bits.
abbrev pub parsed : Bytes → Option (Option ℤ)
parsed [] = some none
parsed (c ∷ s) = given (atoi (c ∷ s))

abbrev pub conditions_of :
    Option (Option ℤ)
    → Option (Option ℤ)
    → Option (Option ℤ)
    → Option (Option ℤ)
    → Option Conditions
conditions_of (some a) (some b) (some c) (some d) = some (record {
  generation_match = a;
  generation_not_match = b;
  metageneration_match = c;
  metageneration_not_match = d;
})
conditions_of _ _ _ _ = none

unfoldable pub parse_conditions : Request → Option Conditions
parse_conditions r =
    conditions_of (parsed (query_get (codes "ifGenerationMatch") r))
      (parsed (query_get (codes "ifGenerationNotMatch") r))
      (parsed (query_get (codes "ifMetagenerationMatch") r))
      (parsed (query_get (codes "ifMetagenerationNotMatch") r))

-- By what `strconv.ParseInt` reads.
abbrev pub generation_checked : Option ℤ → ℤ → Option Error
generation_checked none live = some invalid_name
generation_checked (some n) live = if n ==ℤ live then none else some object_not_found

unfoldable pub check_generation_param : Request → ℤ → Option Error
check_generation_param r live =
    let v = query_get (codes "generation") r in
    if bytes_eq v [] then none else generation_checked (atoi v) live

-- `none` is the nil error.
unfoldable pub check_read_conditions : Conditions → ObjectInfo → Option Error
check_read_conditions conds o =
    if differs conds.generation_match o.generation
    then some precondition_failed
    else if coincides conds.generation_not_match o.generation
    then some precondition_failed
    else if differs conds.metageneration_match o.metageneration
    then some precondition_failed
    else if coincides conds.metageneration_not_match o.metageneration
    then some precondition_failed
    else none

-- A read checks its preconditions on an object as a write checks them on that object live.
pub check_read_conditions-check :
    (conds : Conditions) (o : ObjectInfo) → check_read_conditions conds o ≡ check conds (some o)
unfolding check_read_conditions check
check_read_conditions-check conds o = ground arith
