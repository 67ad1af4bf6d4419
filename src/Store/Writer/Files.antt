-- ===== src/Store/Writer/Files.antt =====
-- What `Commit` does to the files: the blob file is installed, and nothing else that is in use moves.
use objectstorage.Prelude.{
  Option, none, some, false, if◌then◌else◌, ◌≡◌, ◌≢◌, refl, arith, ◌⊎◌, inl, inr, Bool-cases, take,
}
use objectstorage.Prelude.Bytes.{Bytes, bytes_eq, bytes_eq_iff, bytes_Eq}
use objectstorage.Prelude.Dict.{Dict, get, put, remove, get-put, get-remove}
use objectstorage.Store.Types.{Env, ok}
use objectstorage.Store.Bucket.{FilePath, temp, path_eq, path_Eq, blob_path, Faults, stat}
use objectstorage.Store.Bucket.Invariant.{IsAddressed}
use objectstorage.Store.Writer.{install, remove_orphan}

pub path_eq-blob_path : (a b : Bytes) → path_eq (blob_path a) (blob_path b) ≡ bytes_eq a b
unfolding blob_path
path_eq-blob_path a b = ground (arith, bytes_eq_iff a b, bytes_eq_iff (take 2 a) (take 2 b))

-- The blob file of the digest holds the content that was there, or the one that was uploaded; the
-- other blob files and the other uploads are as they were.
pub record IsInstalled (temp_name sha uploaded : Bytes) (files files' : Dict FilePath Bytes)
    : Type 0 where
  pub content : Bytes
  pub source : (get (blob_path sha) files ≡ some content) ⊎ (content ≡ uploaded)
  pub blobs :
      (s : Bytes)
      → get (blob_path s) files'
        ≡ (if bytes_eq sha s then some content else get (blob_path s) files)
  pub temps :
      (other : Bytes)
      → bytes_eq temp_name other ≡ false
      → get (temp other) files' ≡ get (temp other) files

module _ (fails : Faults) (temp_name sha uploaded : Bytes) (files files' : Dict FilePath Bytes)
    (at : get (temp temp_name) files ≡ some uploaded) where
  move_file-IsInstalled :
      put (blob_path sha) uploaded (remove (temp temp_name) files) ≡ files'
      → IsInstalled temp_name sha uploaded files files'
  unfolding blob_path
  move_file-IsInstalled h = record {
    content = uploaded;
    source = inr refl;
    blobs = λ s. rw (← h) (
        ground (
          arith,
          get-put (blob_path sha) (blob_path s) uploaded (remove (temp temp_name) files),
          get-remove (temp temp_name) (blob_path s) files,
          bytes_eq_iff sha s,
          path_eq-blob_path sha s,
        ));
    temps = λ other p. rw (← h) (
        ground (
          arith,
          get-put (blob_path sha) (temp other) uploaded (remove (temp temp_name) files),
          get-remove (temp temp_name) (temp other) files,
        ));
  }

  kept-IsInstalled :
      (content : Bytes)
      → get (blob_path sha) files ≡ some content
      → files ≡ files'
      → IsInstalled temp_name sha uploaded files files'
  kept-IsInstalled content e h = record {
    content = content;
    source = inl e;
    blobs = λ s. rw (← h) (ground (arith, e, bytes_eq_iff sha s));
    temps = λ other p. rw (← h);
  }

  pub install-IsInstalled :
      install fails temp_name sha files ≡ ok files'
      → IsInstalled temp_name sha uploaded files files'
  unfolding install
  install-IsInstalled h = split (get (blob_path sha) files) refl
    where
      split :
          (o : Option Bytes)
          → get (blob_path sha) files ≡ o
          → IsInstalled temp_name sha uploaded files files'
      split none e = move_file-IsInstalled (ground (arith, at))
      split (some content) e = elim (Bool-cases (fails stat)) [
        | inl p ↦ move_file-IsInstalled (ground (arith, at))
        | inr p ↦ kept-IsInstalled content e (ground arith)
      ]

module _ (env : Env) (temp_name sha uploaded : Bytes) (files files' : Dict FilePath Bytes)
    (i : IsInstalled temp_name sha uploaded files files') where
  pub IsInstalled-IsAddressed :
      env.sha256_hex uploaded ≡ sha → IsAddressed env files → IsAddressed env files'
  IsInstalled-IsAddressed digest h s c e = split i.source
    where
      split :
          (get (blob_path sha) files ≡ some i.content) ⊎ (i.content ≡ uploaded)
          → env.sha256_hex c ≡ s
      split (inl p) = ground (arith, i.blobs s, h s c, h sha i.content p, bytes_eq_iff sha s)
      split (inr p) = ground (arith, i.blobs s, h s c, p, digest, bytes_eq_iff sha s)

  -- A blob whose file was there, and the new one, have a file.
  pub IsInstalled-has :
      (s : Bytes)
      → ((c : Bytes) × (get (blob_path s) files ≡ some c)) ⊎ (s ≡ sha)
      → (c : Bytes) × (get (blob_path s) files' ≡ some c)
  IsInstalled-has s (inl (c, e)) = elim (Bool-cases (bytes_eq sha s)) [
    | inl p ↦ (i.content, ground (arith, i.blobs s))
    | inr p ↦ (c, ground (arith, i.blobs s))
  ]
  IsInstalled-has s (inr e) = (i.content, ground (arith, i.blobs s, bytes_eq_iff sha s))

pub get-remove_orphan :
    (fails : Faults) (orphan : Option Bytes) (s : Bytes) (files : Dict FilePath Bytes)
    → orphan ≢ some s
    → get (blob_path s) (remove_orphan fails orphan files) ≡ get (blob_path s) files
get-remove_orphan fails none s files h = refl
get-remove_orphan fails (some sha) s files h = ground (
  arith,
  get-remove (blob_path sha) (blob_path s) files,
  path_eq-blob_path sha s,
  bytes_eq_iff sha s,
)
