-- ===== src/Store/Writer/ReadBack.antt =====
-- After a commit: reading the object back, its content, its generation.
use objectstorage.Prelude.{ℕ, ◌/◌, ◌*◌, some, true, ◌≡◌, ◌≢◌, arith}
use objectstorage.Prelude.Bytes.{Bytes, bytes_eq_iff, bytes_Eq}
use objectstorage.Prelude.Int.{pos, ◌<ℤ◌, max_int64, lt-inc64}
use objectstorage.Store.Types.{Env, ok, ObjectInfo, PutOptions}
use objectstorage.Store.Bucket.{
  no_faults, path_Eq, Bucket, Faults, select, scan_object, get_object, open_object, read_metadata,
}
use objectstorage.Store.Bucket.Readable.{open_object-total}
use objectstorage.Store.Bucket.Invariant.{IsConsistent}
use objectstorage.Store.Writer.{Writer, commit, next_generation, encode}
use objectstorage.Store.Writer.Stream.{IsSynced}
use objectstorage.Store.Writer.Effects.{commit-IsPut}
use objectstorage.Store.Writer.Consistent.{commit-IsConsistent}

-- An `ObjectInfo` whose times have gone through the table, in microseconds.
abbrev pub in_micros : ObjectInfo → ObjectInfo
in_micros o = record o { created = o.created / 1000 * 1000; updated = o.updated / 1000 * 1000 }

-- JSON gives back the metadata that was written.
abbrev pub RoundTrips : Env → PutOptions → Type 0
RoundTrips env opts =
    (json : Bytes) → encode env opts.metadata ≡ ok json → read_metadata env json ≡ ok opts.metadata

module _ (env : Env) (fails : Faults) (now : ℕ) (w : Writer) (name : Bytes) (opts : PutOptions)
    (b : Bucket) (found : ObjectInfo)
    (done : (commit env fails now name opts w b).0 ≡ ok found) where
  -- Where JSON gives back the metadata, the object that a successful commit returns is the one that is
  -- read afterwards, with its times in microseconds.
  pub get_object-commit_self :
      RoundTrips env opts
      → get_object env no_faults name (commit env fails now name opts w b).2 ≡ ok (in_micros found)
  unfolding get_object scan_object
  get_object-commit_self json =
      let p = commit-IsPut env fails now w name opts b found done in
      ground (arith, p.rows name, p.bucket, p.info, json p.json p.encoded, bytes_eq_iff name name)

  -- After a successful commit, every object of another name is read as before.
  pub get_object-commit_ne :
      (other : Bytes)
      → name ≢ other
      → get_object env no_faults other (commit env fails now name opts w b).2
        ≡ get_object env no_faults other b
  unfolding get_object scan_object
  get_object-commit_ne other h =
      let p = commit-IsPut env fails now w name opts b found done in
      ground (arith, p.rows other, p.bucket, bytes_eq_iff name other)

  -- Where no two contents have the same digest, the content that is read is what was streamed.
  pub open_object-commit :
      RoundTrips env opts
      → ((x y : Bytes) → env.sha256_hex x ≡ env.sha256_hex y → x ≡ y)
      → IsSynced w b
      → IsConsistent env b
      → open_object env no_faults name (commit env fails now name opts w b).2
        ≡ ok (in_micros found, w.sha)
  open_object-commit json injective synced h =
      let read = get_object-commit_self json in
      let (c, at, digest) =
        open_object-total env _ name (in_micros found)
          (commit-IsConsistent env fails now name opts w b synced h) read in
      let p = commit-IsPut env fails now w name opts b found done in
      let same : c ≡ w.sha = injective c w.sha (ground (arith, digest, p.info)) in simp (at, same)

  -- A successful commit over a live object gives a greater generation, whatever the clock says, unless
  -- the live generation is the greatest 64-bit integer.
  pub generation-commit :
      (o : ObjectInfo)
      → get_object env no_faults name b ≡ ok o
      → o.generation ≢ pos max_int64
      → (o.generation <ℤ found.generation) ≡ true
  unfolding get_object next_generation select
  generation-commit o live h =
      let p = commit-IsPut env fails now w name opts b found done in
      let was : p.existing ≡ some o = ground (arith, p.selected) in
      ground (arith, p.info, was, lt-inc64 o.generation h)
