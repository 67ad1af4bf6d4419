-- ===== src/S3/Multipart/Opens.antt =====
-- What is opened from a store from which staged parts of pkg/s3 are taken away.
use objectstorage.Prelude.{
  Option, none, some, Bool, [], ◌∷◌, ◌≡◌, refl, sym, ap, ◌∙◌, arith, inl, inr, Bool-cases,
}
use objectstorage.Prelude.Bytes.{Bytes, bytes_Eq, bytes_eq, bytes_eq_iff}
use objectstorage.Prelude.Dict.{Dict, get-put, get-remove}
use objectstorage.Prelude.Int.{ℤ}
use objectstorage.Store.Types.{Env, Result, ok, err, ObjectInfo}
use objectstorage.Store.Bucket.{
  FilePath, temp, path_Eq, blob_path, Bucket, Faults, no_faults, remove_temp, discard, open_object,
  select,
}
use objectstorage.Store.Buckets.{Store, ready, directory, content}
use objectstorage.S3.Body.{Host}
use objectstorage.S3.Multipart.{StagedPart, edit_files, remove_part, remove_parts}

-- The bucket of the store from which the object is opened, with that outcome.
pub record Opens (env : Env) (bucket_name key : Bytes) (st : Store)
    (o : Result (ObjectInfo × Bytes)) : Type 0 where
  pub at : Bucket
  pub here : content bucket_name st ≡ some at
  pub opened : open_object env no_faults key at ≡ o

-- Taking a temporary file away does not show in what is opened.
open_object-discard :
    (env : Env) (failed : Bool) (name key : Bytes) (b : Bucket)
    → open_object env no_faults key (record b { files = discard failed (temp name) b.files })
      ≡ open_object env no_faults key b
unfolding open_object objectstorage.Store.Bucket.get_object blob_path
open_object-discard env failed name key b = split (select env no_faults b.name key b.tables) refl
  where
    split :
        (o : Result (Option ObjectInfo))
        → select env no_faults b.name key b.tables ≡ o
        → open_object env no_faults key (record b { files = discard failed (temp name) b.files })
          ≡ open_object env no_faults key b
    split (err e) q = ground (arith, q)
    split (ok none) q = ground (arith, q)
    split (ok (some o)) q = ground (arith, q, get-remove (temp name) (blob_path o.sha256) b.files)

remove_part-Opens :
    (host : Host) (bucket_name bucket key : Bytes) (part : StagedPart) (st : Store)
    (o : Result (ObjectInfo × Bytes))
    → Opens host.env bucket_name key st o
    → Opens host.env bucket_name key (remove_part host bucket part st) o
unfolding remove_part edit_files
remove_part-Opens host bucket_name bucket key part st o h = split (content bucket st) refl
  where
    split :
        (found : Option Bucket)
        → content bucket st ≡ found
        → Opens host.env bucket_name key (remove_part host bucket part st) o
    split none e = simp e h
    split (some b) e =
        let b' : Bucket = record b {
          files = discard (host.fails 0 remove_temp) (temp part.temp_name) b.files;
        } in
        let at = get-put bucket bucket_name (directory (ready b')) st.entries in
        simp e (elim (Bool-cases (bytes_eq bucket bucket_name)) [
          | inl p ↦
              let same : h.at ≡ b = ground (arith, p, e, h.here, bytes_eq_iff bucket bucket_name) in
              record {
                at = b';
                here = ground (arith, p, at);
                opened =
                    open_object-discard host.env (host.fails 0 remove_temp) part.temp_name key b
                    ∙ ap (open_object host.env no_faults key) (sym same)
                    ∙ h.opened;
              }
          | inr p ↦ record { at = h.at; here = ground (arith, p, at, h.here); opened = h.opened }
        ])

pub remove_parts-Opens :
    (host : Host) (bucket_name bucket key : Bytes) (parts : Dict ℤ StagedPart) (st : Store)
    (o : Result (ObjectInfo × Bytes))
    → Opens host.env bucket_name key st o
    → Opens host.env bucket_name key (remove_parts host bucket parts st) o
unfolding remove_parts
remove_parts-Opens host bucket_name bucket key [] st o h = h
remove_parts-Opens host bucket_name bucket key ((number, part) ∷ parts) st o h =
    remove_parts-Opens host bucket_name bucket key parts (remove_part host bucket part st) o
      (remove_part-Opens host bucket_name bucket key part st o h)
