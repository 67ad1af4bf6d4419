-- ===== src/Gcs/Conditions/Params.antt =====
-- Generations that a client has been told, and sends back as parameters.
use objectstorage.Prelude.{
  Option, none, some, false, if◌then◌else◌, [], ◌∷◌, ◌≡◌, refl, ap, ◌∙◌, arith,
}
use objectstorage.Prelude.Bytes.{Bytes, codes, bytes_eq}
use objectstorage.Prelude.Int.{ℤ, ◌==ℤ◌}
use objectstorage.Store.Types.{object_not_found, Conditions}
use objectstorage.Http.{Request, query_get}
use objectstorage.Http.Text.{atoi}
use objectstorage.Http.Print.{format_int, IsInt64, atoi-format_int}
use objectstorage.Gcs.Conditions.{given, parsed, parse_conditions, check_generation_param}

-- A parameter that may be left out.
abbrev pub param_of : Option ℤ → Bytes
param_of none = []
param_of (some n) = format_int n

abbrev pub IsSmall : Option ℤ → Type 0
IsSmall none = Unit {0}
IsSmall (some n) = IsInt64 n

some_text : (s : Bytes) (n : ℤ) → atoi s ≡ some n → parsed s ≡ some (some n)
unfolding atoi
some_text [] n h = absurd (ground (arith, h))
some_text (c ∷ s) n h = ap given h

parsed-param_of : (o : Option ℤ) → IsSmall o → parsed (param_of o) ≡ some o
parsed-param_of none h = refl
parsed-param_of (some n) h = some_text (format_int n) n (atoi-format_int n h)

-- The parameters of a query that are the decimal forms of preconditions, each in the range of int64 and
-- empty where it is none, are read as those preconditions.
pub parse_conditions-param_of :
    (r : Request) (c : Conditions)
    → IsSmall c.generation_match
    → IsSmall c.generation_not_match
    → IsSmall c.metageneration_match
    → IsSmall c.metageneration_not_match
    → query_get (codes "ifGenerationMatch") r ≡ param_of c.generation_match
    → query_get (codes "ifGenerationNotMatch") r ≡ param_of c.generation_not_match
    → query_get (codes "ifMetagenerationMatch") r ≡ param_of c.metageneration_match
    → query_get (codes "ifMetagenerationNotMatch") r ≡ param_of c.metageneration_not_match
    → parse_conditions r ≡ some c
unfolding parse_conditions
parse_conditions-param_of r c s1 s2 s3 s4 q1 q2 q3 q4 =
    let p1 = ap parsed q1 ∙ parsed-param_of c.generation_match s1 in
    let p2 = ap parsed q2 ∙ parsed-param_of c.generation_not_match s2 in
    let p3 = ap parsed q3 ∙ parsed-param_of c.metageneration_match s3 in
    let p4 = ap parsed q4 ∙ parsed-param_of c.metageneration_not_match s4 in
    simp (p1, p2, p3, p4) refl

some_bytes : (s : Bytes) (n : ℤ) → atoi s ≡ some n → bytes_eq s [] ≡ false
unfolding atoi bytes_eq
some_bytes [] n h = absurd (ground (arith, h))
some_bytes (c ∷ s) n h = refl

-- Where the parameter `generation` is the decimal form of a number in the range of int64, a read passes
-- if the number is the live generation, and finds no object if it is another.
pub check_generation_param-format_int :
    (r : Request) (n live : ℤ)
    → IsInt64 n
    → query_get (codes "generation") r ≡ format_int n
    → check_generation_param r live ≡ (if n ==ℤ live then none else some object_not_found)
unfolding check_generation_param
check_generation_param-format_int r n live small q =
    let read = atoi-format_int n small in simp (q, read, some_bytes (format_int n) n read) refl
