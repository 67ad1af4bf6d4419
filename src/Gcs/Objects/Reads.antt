-- ===== src/Gcs/Objects/Reads.antt =====
-- When a read of pkg/gcs is answered with an object, and what its parameters mean.
use objectstorage.Prelude.{
  Option, none, some, Bool, true, false, ◌==◌, if◌then◌else◌, [], ◌∷◌, ◌≡◌, ◌↔◌, ◌⊎◌, refl, sym, ap,
  ◌∙◌, arith, inl, inr,
}
use objectstorage.Prelude.Bytes.{Bytes, codes, bytes_eq, bytes_Eq}
use objectstorage.Prelude.Int.{ℤ, ==ℤ_iff}
use objectstorage.Store.Types.{
  Error, bucket_not_found, bucket_exists, bucket_not_empty, object_not_found, precondition_failed,
  invalid_name, call_failed, finished, corrupt_metadata, panicked, ok, ObjectInfo, Conditions,
}
use objectstorage.Store.Conditions.{check_iff, Satisfies}
use objectstorage.Store.Buckets.{Store}
use objectstorage.Store.Objects.{get_object_in, open_object_in}
use objectstorage.Http.{Request, query_get}
use objectstorage.Http.Text.{atoi}
use objectstorage.Gcs.Conditions.{
  parsed, check_read_conditions, check_read_conditions-check, parse_conditions, generation_checked,
  check_generation_param,
}
use objectstorage.Gcs.Resources.{
  Host, Response, json_reply, no_content, media, aborted, object_json, write_json, write_error,
  write_store_error, to_object_resource,
}
use objectstorage.Gcs.Objects.{
  failed_or, conditions_checked, read_checked, get_object, media_headers, serve_media,
}

-- What a request asks of an object that it reads.
pub record Allows (r : Request) (o : ObjectInfo) : Type 0 where
  pub generation :
      (query_get (codes "generation") r ≡ [])
      ⊎ (atoi (query_get (codes "generation") r) ≡ some o.generation)
  pub conds : Conditions
  pub parsed : parse_conditions r ≡ some conds
  pub holds : Satisfies conds (some o)

-- An answer with an object.
abbrev pub is_found : Response → Bool
is_found (json_reply status v) = status == 200
is_found no_content = false
is_found (media headers updated content) = true
is_found aborted = false

store_error_found : (e : Error) → is_found (write_store_error e) ≡ false
unfolding write_store_error write_error write_json
store_error_found bucket_not_found = refl
store_error_found bucket_exists = refl
store_error_found bucket_not_empty = refl
store_error_found object_not_found = refl
store_error_found precondition_failed = refl
store_error_found invalid_name = refl
store_error_found call_failed = refl
store_error_found finished = refl
store_error_found corrupt_metadata = refl
store_error_found panicked = refl

checked_sound : (n : Option ℤ) (live : ℤ) → generation_checked n live ≡ none → n ≡ some live
checked_sound none live h = cc
checked_sound (some n) live h = ground (arith, h, ==ℤ_iff n live)

-- By the value of the parameter.
param_sound :
    (v : Bytes) (live : ℤ)
    → (if bytes_eq v [] then none else generation_checked (atoi v) live) ≡ none
    → (v ≡ []) ⊎ (atoi v ≡ some live)
unfolding bytes_eq
param_sound [] live h = inl refl
param_sound (c ∷ s) live h = inr (checked_sound (atoi (c ∷ s)) live h)

param_complete :
    (v : Bytes) (live : ℤ)
    → (v ≡ []) ⊎ (atoi v ≡ some live)
    → (if bytes_eq v [] then none else generation_checked (atoi v) live) ≡ none
unfolding bytes_eq
param_complete [] live h = refl
param_complete (c ∷ s) live (inl e) = absurd (ground (arith, e))
param_complete (c ∷ s) live (inr e) = simp e (ground (arith, ==ℤ_iff live live))

module _ (r : Request) (o : ObjectInfo) (x : Response) (found : is_found x ≡ true) where
  failed_or-found : (e : Option Error) (y : Response) → failed_or e y ≡ x → (e ≡ none) × (y ≡ x)
  failed_or-found none y h = (refl, h)
  failed_or-found (some e) y h = absurd (ground (arith, store_error_found e, ap is_found h, found))

  conditions-found :
      (c : Option Conditions)
      → conditions_checked o c x ≡ x
      → (conds : Conditions) × (c ≡ some conds) × (check_read_conditions conds o ≡ none)
  unfolding write_error write_json
  conditions-found none h = absurd (ground (arith, ap is_found h, found))
  conditions-found (some conds) h =
      (conds, refl, (failed_or-found (check_read_conditions conds o) x h).0)

  read_checked_sound : read_checked r o x ≡ x → Allows r o
  unfolding read_checked check_generation_param
  read_checked_sound h =
      let (generation, rest) = failed_or-found (check_generation_param r o.generation) _ h in
      let (conds, parsed, passed) = conditions-found (parse_conditions r) rest in
      record {
        generation = param_sound (query_get (codes "generation") r) o.generation generation;
        conds = conds;
        parsed = parsed;
        holds = (check_iff conds (some o)).0 (sym (check_read_conditions-check conds o) ∙ passed);
      }

  read_checked_complete : Allows r o → read_checked r o x ≡ x
  unfolding read_checked
  read_checked_complete a =
      let passed = check_read_conditions-check a.conds o ∙ (check_iff a.conds (some o)).1 a.holds in
      let allowed : check_generation_param r o.generation ≡ none =
        unfold check_generation_param in
        param_complete (query_get (codes "generation") r) o.generation a.generation in
      simp (allowed, a.parsed, passed) refl

-- A download whose object can be opened is answered with its content exactly when the parameter
-- `generation` is empty or a number that is the object's generation, the preconditions of the query can
-- be read, and they hold of the object.
pub serve_media_iff :
    (host : Host) (r : Request) (bucket object : Bytes) (st : Store) (o : ObjectInfo)
    (content : Bytes)
    → (open_object_in host.env host.fails host.now bucket object st).0 ≡ ok (o, content)
    → ((serve_media host r bucket object st).0 ≡ media (media_headers host o) o.updated content)
      ↔ Allows r o
unfolding serve_media
serve_media_iff host r bucket object st o content opened =
    let x = media (media_headers host o) o.updated content in
    simp opened (read_checked_sound r o x refl, read_checked_complete r o x refl)

-- The resource of an object that can be found is answered exactly when the parameter `generation` is empty
-- or a number that is the object's generation, the preconditions of the query can be read, and they hold
-- of the object.
pub get_object_iff :
    (host : Host) (r : Request) (bucket object : Bytes) (st : Store) (o : ObjectInfo)
    → (get_object_in host.env host.fails host.now bucket object st).0 ≡ ok o
    → ((get_object host r bucket object st).0
        ≡ write_json 200 (object_json (to_object_resource host o)))
      ↔ Allows r o
unfolding get_object write_json
get_object_iff host r bucket object st o got =
    let x = json_reply 200 (object_json (to_object_resource host o)) in
    simp got (read_checked_sound r o x refl, read_checked_complete r o x refl)
