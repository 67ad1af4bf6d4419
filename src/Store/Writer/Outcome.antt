-- ===== src/Store/Writer/Outcome.antt =====
-- What a commit returns where no call fails, and what a refused commit leaves behind.
use objectstorage.Prelude.{
  ℕ, Option, none, some, true, not, if◌then◌else◌, ◌≡◌, refl, arith, inl, inr, ◌⊎◌,
}
use objectstorage.Prelude.Bytes.{Bytes, bytes_eq_iff, bytes_Eq}
use objectstorage.Prelude.Dict.{Dict, get, get-remove}
use objectstorage.Store.Types.{
  Error, invalid_name, Env, Result, ok, err, ◌>>=◌, ◌>>◌, ObjectInfo, PutOptions,
}
use objectstorage.Store.Conditions.{check}
use objectstorage.Store.Names.{valid_object_name}
use objectstorage.Store.Bucket.{
  no_faults, FilePath, temp, path_Eq, blob_path, Bucket, select, or_fail,
}
use objectstorage.Store.Writer.{
  Writer, encode, new_info, next_generation, commit_rows, install, commit_installed, commit_body,
  commit,
}
use objectstorage.Store.Writer.Stream.{IsSynced}
use objectstorage.Store.Writer.Files.{install-IsInstalled}

install_total :
    (temp_name sha content : Bytes) (files : Dict FilePath Bytes)
    → get (temp temp_name) files ≡ some content
    → (files' : Dict FilePath Bytes) × (install no_faults temp_name sha files ≡ ok files')
unfolding install
install_total temp_name sha content files h = split (install no_faults temp_name sha files) refl
  where
    split :
        (r : Result (Dict FilePath Bytes))
        → install no_faults temp_name sha files ≡ r
        → (files' : Dict FilePath Bytes) × (install no_faults temp_name sha files ≡ ok files')
    split (ok x) e = (x, e)
    split (err x) e = absurd (ground arith)

-- What `Commit` returns, by the name, by what is live and by the metadata.
abbrev pub commit_outcome :
    Env → ℕ → Bytes → PutOptions → Writer → Bytes → Option ObjectInfo → Result ObjectInfo
commit_outcome env now name opts w bucket existing =
    if not (valid_object_name name)
    then err invalid_name
    else or_fail (check opts.conditions existing)
      >> (encode env opts.metadata >>= λ json.
          ok (new_info env now w bucket name (next_generation now existing) opts))

module _ (env : Env) (now : ℕ) (name : Bytes) (opts : PutOptions) (w : Writer) (b : Bucket)
    (existing : Option ObjectInfo)
    (live : select env no_faults b.name name b.tables ≡ ok existing) where
  -- Where no call fails, a commit that its preconditions refuse, and whose content has no blob file
  -- yet, leaves one in the blob store: the tables are as they were, and the file stays.
  pub commit-refused :
      (e : Error)
      → IsSynced w b
      → valid_object_name name ≡ true
      → check opts.conditions existing ≡ some e
      → get (blob_path (env.sha256_hex w.sha)) b.files ≡ none
      → ((commit env no_faults now name opts w b).0 ≡ err e)
        × ((commit env no_faults now name opts w b).2.tables ≡ b.tables)
        × (get (blob_path (env.sha256_hex w.sha)) (commit env no_faults now name opts w b).2.files
            ≡ some w.sha)
  unfolding commit commit_body commit_installed commit_rows blob_path
  commit-refused e synced valid refused fresh =
      let sha = env.sha256_hex w.sha in
      let (files, installed) = install_total w.temp_name sha w.sha b.files synced.file in
      let i =
        install-IsInstalled no_faults w.temp_name sha w.sha b.files files synced.file installed in
      let content : i.content ≡ w.sha = from i.content i.source in
      ground (
        arith,
        live,
        installed,
        content,
        i.blobs sha,
        bytes_eq_iff sha sha,
        get-remove (temp w.temp_name) (blob_path sha) files,
      )
    where
      from :
          (c : Bytes)
          → (get (blob_path (env.sha256_hex w.sha)) b.files ≡ some c) ⊎ (c ≡ w.sha)
          → c ≡ w.sha
      from c (inl p) = cc
      from c (inr p) = p
