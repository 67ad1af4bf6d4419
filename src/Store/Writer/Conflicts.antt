-- ===== src/Store/Writer/Conflicts.antt =====
-- Two commits that were prepared against the same generation.
use objectstorage.Prelude.{ℕ, ◌/◌, ◌≤◌, Option, none, some, true, ◌≡◌, ◌≢◌, sym, subst, arith}
use objectstorage.Prelude.Bytes.{Bytes, bytes_Eq, bytes_eq_iff}
use objectstorage.Prelude.Dict.{get}
use objectstorage.Prelude.Int.{ℤ, pos, ◌<ℤ◌, max_int64, lt-inc64}
use objectstorage.Store.Types.{Env, ok, ObjectInfo, PutOptions}
use objectstorage.Store.Conditions.{Matches, number_of}
use objectstorage.Store.Bucket.{Bucket, Faults, Tables, ObjectRow, select, scan_object}
use objectstorage.Store.Writer.{Writer, commit, next_generation, new_row}
use objectstorage.Store.Writer.Effects.{commit-IsPut}

-- A row that is read has its generation.
select-row :
    (env : Env) (fails : Faults) (bucket name : Bytes) (t : Tables) (row : ObjectRow)
    (existing : Option ObjectInfo)
    → get name t.objects ≡ some row
    → select env fails bucket name t ≡ ok existing
    → number_of (λ o. o.generation) existing ≡ some row.generation
unfolding select scan_object
select-row env fails bucket name t row existing at q = ground (arith, at, q)

-- What a match condition was satisfied by is less than the generation that a commit gives.
next_generation-Matches :
    (now : ℕ) (v : ℤ) (existing : Option ObjectInfo)
    → 1000 ≤ now
    → v ≢ pos max_int64
    → Matches (some v) (number_of (λ o. o.generation) existing)
    → (v <ℤ next_generation now existing) ≡ true
unfolding next_generation
next_generation-Matches now v none late h e =
    subst (λ x. (x <ℤ pos (now / 1000)) ≡ true) (sym e) (ground (arith, late))
next_generation-Matches now v (some o) late h e = ground (arith, e, h, lt-inc64 v h)

-- Whatever calls fail: after a commit that succeeds under the condition that the generation is `v`,
-- where the clock is past the first microsecond of 1970 and `v` is not the greatest 64-bit integer, no
-- other commit to the same name under the same condition succeeds on what the first one left, whatever its
-- content, its options otherwise and its time.
pub commit-commit :
    (env : Env) (fails fails' : Faults) (now now' : ℕ) (w w' : Writer) (name : Bytes)
    (opts opts' : PutOptions) (b : Bucket) (v : ℤ) (found other : ObjectInfo)
    → (commit env fails now name opts w b).0 ≡ ok found
    → opts.conditions.generation_match ≡ some v
    → opts'.conditions.generation_match ≡ some v
    → 1000 ≤ now
    → v ≢ pos max_int64
    → (commit env fails' now' name opts' w' (commit env fails now name opts w b).2).0 ≢ ok other
commit-commit env fails fails' now now' w w' name opts opts' b v found other done first second late
      h q =
    let b' = (commit env fails now name opts w b).2 in
    let p = commit-IsPut env fails now w name opts b found done in
    let p' = commit-IsPut env fails' now' w' name opts' b' other q in
    let generation = next_generation now p.existing in
    let grown =
      next_generation-Matches now v p.existing late h (
        subst (λ c. Matches c (number_of (λ o. o.generation) p.existing)) first p.passed.matches) in
    let row = new_row env now w generation opts p.json in
    let at : get name b'.objects ≡ some row = ground (arith, p.rows name, bytes_eq_iff name name) in
    let live : number_of (λ o. o.generation) p'.existing ≡ some generation =
      select-row env fails' b'.name name b'.tables row p'.existing at p'.selected in
    let same : generation ≡ v =
      subst (λ c. Matches c (some generation)) second
        (subst (λ n. Matches opts'.conditions.generation_match n) live p'.passed.matches) in
    ground (arith, grown, same)
