-- ===== src/S3/Multipart/Assembly.antt =====
-- The assembly of the parts of an upload of pkg/s3: the writer has streamed the staged files, in the
-- order of the request.
use objectstorage.Prelude.{
  ℕ, Option, none, some, Bool, true, false, if◌then◌else◌, List, [], ◌∷◌, ◌++◌, length, take,
  append-nil, append_assoc, ◌≡◌, ◌≢◌, refl, sym, ap, ◌∙◌, arith, inl, inr, Bool-cases, subst,
}
use objectstorage.Prelude.Bytes.{Bytes, bytes_eq_iff, bytes_Eq}
use objectstorage.Prelude.Dict.{Dict, get, get-put}
use objectstorage.Store.Types.{Error, call_failed, Result, ok, err}
use objectstorage.Store.Bucket.{FilePath, temp, path_Eq, Bucket}
use objectstorage.Store.Writer.{Writer, write, append_file}
use objectstorage.Store.Writer.Copy.{copy, resume}
use objectstorage.Store.Writer.Stream.{IsSynced, copy-IsCopied, concat}
use objectstorage.Http.{pieces_of}
use objectstorage.S3.Body.{Host, with_writes}
use objectstorage.S3.Body.Reads.{concat-with_writes, flatten-pieces_of}
use objectstorage.S3.Multipart.{StagedPart}
use objectstorage.S3.Multipart.Complete.{copy_file, go_on, copy_parts}

-- A writer goes on under its name; the other temporary files and the tables stand.
pub record Spares (w : Writer) (b : Bucket) (r : Result (Unit {0}) × Writer × Bucket) : Type 0 where
  pub named : r.1.temp_name ≡ w.temp_name
  pub tables : r.2.tables ≡ b.tables
  pub others : (t : Bytes) → w.temp_name ≢ t → get (temp t) r.2.files ≡ get (temp t) b.files

append_file-others :
    (n t p : Bytes) (files : Dict FilePath Bytes)
    → n ≢ t
    → get (temp t) (append_file (temp n) p files) ≡ get (temp t) files
append_file-others n t p files h = split (get (temp n) files) refl
  where
    split :
        (o : Option Bytes)
        → get (temp n) files ≡ o
        → get (temp t) (append_file (temp n) p files) ≡ get (temp t) files
    split none e = ground (arith, e)
    split (some c) e =
        ground (arith, e, h, get-put (temp n) (temp t) (c ++ p) files, bytes_eq_iff n t)

write-Spares :
    (p : Bytes) (n : ℕ) (w : Writer) (b : Bucket)
    → Spares w b (ok tt, (write p n w b).1, (write p n w b).2)
unfolding write
write-Spares p n w b = record {
  named = ground arith;
  tables = ground arith;
  others = λ t h. ground (arith, append_file-others w.temp_name t (take n p) b.files h);
}

resume-Spares :
    (result : Result ℕ) (rest : Result (Unit {0}) × Writer × Bucket) (w w' : Writer) (b b' : Bucket)
    → Spares w b (ok tt, w', b')
    → Spares w' b' rest
    → Spares w b (resume result rest w' b')
resume-Spares (err e) rest w w' b b' h k = record {
  named = h.named;
  tables = h.tables;
  others = h.others;
}
resume-Spares (ok n) rest w w' b b' h k = record {
  named = k.named ∙ h.named;
  tables = k.tables ∙ h.tables;
  others = λ t d. k.others t (λ e. d (sym h.named ∙ e)) ∙ h.others t d;
}

pub copy-Spares :
    (chunks : List (Bytes × ℕ)) (broken : Bool) (w : Writer) (b : Bucket)
    → Spares w b (copy chunks broken w b)
unfolding copy
copy-Spares [] broken w b = record { named = refl; tables = refl; others = λ t h. refl }
copy-Spares ((p, n) ∷ chunks) broken w b =
    resume-Spares (write p n w b).0 _ w (write p n w b).1 b (write p n w b).2 (write-Spares p n w b)
      (copy-Spares chunks broken (write p n w b).1 (write p n w b).2)

if-Spares :
    (test : Bool) (e : Error) (w : Writer) (b : Bucket) (r : Result (Unit {0}) × Writer × Bucket)
    → Spares w b r
    → Spares w b (if test then (err e, w, b) else r)
if-Spares true e w b r h = record { named = refl; tables = refl; others = λ t d. refl }
if-Spares false e w b r h = h

abbrev pub appended : Option Bytes → Option Bytes → Option Bytes
appended (some a) (some b) = some (a ++ b)
appended _ _ = none

-- The contents of the staged files, one after the other, where all of them are there.
abbrev pub staged_content : List StagedPart → Dict FilePath Bytes → Option Bytes
staged_content [] files = some []
staged_content (part ∷ parts) files =
    appended (get (temp part.temp_name) files) (staged_content parts files)

-- No part is staged under the name.
abbrev pub IsFresh : Bytes → List StagedPart → Type 0
IsFresh name [] = Unit {0}
IsFresh name (part ∷ parts) = (name ≢ part.temp_name) × IsFresh name parts

module _ (host : Host) where
  pub copy_file-Spares :
      (n : ℕ) (o : Option Bytes) (w : Writer) (b : Bucket) → Spares w b (copy_file host n o w b)
  copy_file-Spares n none w b = record { named = refl; tables = refl; others = λ t h. refl }
  copy_file-Spares n (some file) w b = if-Spares (host.open_fails n) call_failed w b _ (
      copy-Spares (with_writes host.stored (pieces_of host.buffer host.pick file))
        (host.file_breaks n) w b)

  pub staged_content-Spares :
      (parts : List StagedPart) (w : Writer) (b : Bucket) (r : Result (Unit {0}) × Writer × Bucket)
      → IsFresh w.temp_name parts
      → Spares w b r
      → staged_content parts r.2.files ≡ staged_content parts b.files
  staged_content-Spares [] w b r f s = refl
  staged_content-Spares (part ∷ parts) w b r (d, f) s =
      ground (arith, s.others part.temp_name d, staged_content-Spares parts w b r f s)

  -- What a copy of the parts that succeeds has streamed.
  pub record Assembled (parts : List StagedPart) (w w' : Writer) (b b' : Bucket) : Type 0 where
    pub content : Bytes
    pub staged : staged_content parts b.files ≡ some content
    pub streamed : w'.sha ≡ w.sha ++ content
    pub synced : IsSynced w' b'

  -- One file has been copied whole.
  pub copy_file-ok :
      (n : ℕ) (o : Option Bytes) (w : Writer) (b : Bucket)
      → IsSynced w b
      → (copy_file host n o w b).0 ≡ ok tt
      → (file : Bytes) × (o ≡ some file)
        × ((copy_file host n o w b).1.sha ≡ w.sha ++ file)
        × IsSynced (copy_file host n o w b).1 (copy_file host n o w b).2
  copy_file-ok n none w b h e = cc
  copy_file-ok n (some file) w b h e = elim (Bool-cases (host.open_fails n)) [
    | inl p ↦ absurd (ground (arith, p, e))
    | inr p ↦
        let chunks = with_writes host.stored (pieces_of host.buffer host.pick file) in
        let c = copy-IsCopied chunks (host.file_breaks n) w b h (ground (arith, p, e)) in
        let whole : concat chunks ≡ file =
          concat-with_writes host.stored (pieces_of host.buffer host.pick file)
          ∙ flatten-pieces_of host.buffer host.pick file in
        rw p (file, refl, c.content ∙ ap (λ x. w.sha ++ x) whole, c.synced)
  ]

  go_on-Assembled :
      (part : StagedPart) (parts : List StagedPart) (w : Writer) (b : Bucket)
      (copied rest : Result (Unit {0}) × Writer × Bucket)
      → IsFresh w.temp_name parts
      → Spares w b copied
      → (copied.0 ≡ ok tt
          → (file : Bytes) × (get (temp part.temp_name) b.files ≡ some file)
            × (copied.1.sha ≡ w.sha ++ file)
            × IsSynced copied.1 copied.2)
      → (IsSynced copied.1 copied.2
          → rest.0 ≡ ok tt
          → Assembled parts copied.1 rest.1 copied.2 rest.2)
      → (go_on copied.0 rest copied.1 copied.2).0 ≡ ok tt
      → Assembled
          (part ∷ parts)
          w
          (go_on copied.0 rest copied.1 copied.2).1
          b
          (go_on copied.0 rest copied.1 copied.2).2
  go_on-Assembled part parts w b (err x, w', b') rest f s first ih e = cc
  go_on-Assembled part parts w b (ok x, w', b') rest f s first ih e =
      let (file, at, sha, synced) = first refl in
      let later = ih synced e in
      let same = staged_content-Spares parts w b (ok x, w', b') f s in
      record {
        content = file ++ later.content;
        staged = ground (arith, at, sym same, later.staged);
        streamed =
            later.streamed
            ∙ ap (λ y. y ++ later.content) sha
            ∙ append_assoc w.sha file later.content;
        synced = later.synced;
      }

  pub copy_parts-Assembled :
      (parts : List StagedPart) (w : Writer) (b : Bucket)
      → IsFresh w.temp_name parts
      → IsSynced w b
      → (copy_parts host parts w b).0 ≡ ok tt
      → Assembled parts w (copy_parts host parts w b).1 b (copy_parts host parts w b).2
  unfolding copy_parts
  copy_parts-Assembled [] w b f h e = record {
    content = [];
    staged = refl;
    streamed = sym (append-nil w.sha);
    synced = h;
  }
  copy_parts-Assembled (part ∷ parts) w b (d, f) h e =
      let o = get (temp part.temp_name) b.files in
      let n = length parts in
      let copied = copy_file host n o w b in
      let s = copy_file-Spares n o w b in
      go_on-Assembled part parts w b copied (copy_parts host parts copied.1 copied.2) f s
        (copy_file-ok n o w b h)
        (copy_parts-Assembled parts copied.1 copied.2
          (subst (λ t. IsFresh t parts) (sym s.named) f))
        e

  go_on-IsSynced :
      (copied rest : Result (Unit {0}) × Writer × Bucket)
      → (copied.0 ≡ ok tt → IsSynced copied.1 copied.2)
      → (IsSynced copied.1 copied.2 → rest.0 ≡ ok tt → IsSynced rest.1 rest.2)
      → (go_on copied.0 rest copied.1 copied.2).0 ≡ ok tt
      → IsSynced (go_on copied.0 rest copied.1 copied.2).1 (go_on copied.0 rest copied.1 copied.2).2
  go_on-IsSynced (err x, w', b') rest first ih e = cc
  go_on-IsSynced (ok x, w', b') rest first ih e = ih (first refl) e

  pub copy_parts-IsSynced :
      (parts : List StagedPart) (w : Writer) (b : Bucket)
      → IsSynced w b
      → (copy_parts host parts w b).0 ≡ ok tt
      → IsSynced (copy_parts host parts w b).1 (copy_parts host parts w b).2
  unfolding copy_parts
  copy_parts-IsSynced [] w b h e = h
  copy_parts-IsSynced (part ∷ parts) w b h e =
      let o = get (temp part.temp_name) b.files in
      let copied = copy_file host (length parts) o w b in
      go_on-IsSynced copied (copy_parts host parts copied.1 copied.2)
        (λ q. (copy_file-ok (length parts) o w b h q).3)
        (λ k q. copy_parts-IsSynced parts copied.1 copied.2 k q) e
