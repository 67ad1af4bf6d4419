-- ===== src/Store/Tests/Data.antt =====
-- The inputs that the tests share. The digests are the contents themselves.
use objectstorage.Prelude.{◌≡◌, sym, ℕ, none, some, false, List, [], ◌∷◌, ◌≢◌, refl, length, arith}
use objectstorage.Prelude.Bytes.{Bytes, codes, bytes_eq, bytes_Eq}
use objectstorage.Prelude.Dict.{get, put, count}
use objectstorage.Prelude.Int.{pos}
use objectstorage.Store.Types.{ok, Metadata, Env, ObjectInfo, Conditions, PutOptions}
use objectstorage.Store.Bucket.{temp, path_Eq, Bucket, no_faults, ObjectRow}
use objectstorage.Store.Bucket.Invariant.{IsConsistent}
use objectstorage.Store.Writer.ReadBack.{RoundTrips}
use objectstorage.Store.Writer.{encode, Writer, new_row, new_info}
use objectstorage.Store.Writer.Stream.{IsSynced}
use objectstorage.Store.Writer.Copy.{put_object}
use objectstorage.Store.Writer.Put.{put_object-IsConsistent, temp-IsConsistent}

abbrev pub color_red : Metadata
color_red = (codes "color", codes "red") ∷ []

abbrev pub plain_env : Env
plain_env = record {
  sha256_hex = λ s. s;
  md5_sum = λ s. s;
  crc32c_sum = length;
  marshal = λ m. some (codes "{\"color\":\"red\"}");
  unmarshal = λ j. some color_red;
}

abbrev pub no_conditions : Conditions
no_conditions = record {
  generation_match = none;
  generation_not_match = none;
  metageneration_match = none;
  metageneration_not_match = none;
}

-- Only if no object is live.
abbrev pub if_absent : Conditions
if_absent = record no_conditions { generation_match = some (pos 0) }

abbrev pub red_text : PutOptions
red_text = record {
  content_type = codes "text/plain";
  metadata = color_red;
  conditions = no_conditions;
}

abbrev pub empty_bucket : Bucket
empty_bucket = record {
  name = codes "photos";
  bucket_info = record { created = 1; metageneration = pos 1 };
  tables = record { objects = []; blobs = [] };
  files = [];
}

none-ne-some {ℓ} : {A : Type ℓ} {a : A} → none ≢ some a
none-ne-some = ground arith

pub empty_bucket-IsConsistent : IsConsistent plain_env empty_bucket
unfolding get count
empty_bucket-IsConsistent = record {
  rows = record { unique = tt; positive = λ s row e. absurd (none-ne-some e); counted = λ s. refl };
  present = λ s row e. absurd (none-ne-some e);
  addressed = λ s c e. absurd (none-ne-some e);
}

-- "cat" is put in two chunks.
abbrev pub cat_chunks : List (Bytes × ℕ)
cat_chunks = (codes "ca", 2) ∷ (codes "t", 1) ∷ []

abbrev pub cat_writer : Writer
cat_writer = record {
  temp_name = codes "upload-1";
  sha = codes "cat";
  md5h = codes "cat";
  crc = codes "cat";
  size = 3;
  done = false;
}

abbrev pub cat_bucket : Bucket
cat_bucket =
    (put_object plain_env no_faults 5000 (codes "upload-0") (codes "a/cat") cat_chunks false
      red_text empty_bucket).1

pub cat_bucket-IsConsistent : IsConsistent plain_env cat_bucket
cat_bucket-IsConsistent =
    put_object-IsConsistent plain_env no_faults 5000 (codes "upload-0") (codes "a/cat") cat_chunks
      false red_text empty_bucket empty_bucket-IsConsistent

-- A second upload, of "dog", is written and not yet committed.
abbrev pub dog_writer : Writer
dog_writer = record {
  temp_name = codes "upload-1";
  sha = codes "dog";
  md5h = codes "dog";
  crc = codes "dog";
  size = 3;
  done = false;
}

abbrev pub staged_bucket : Bucket
staged_bucket = record cat_bucket {
  files = put (temp (codes "upload-1")) (codes "dog") cat_bucket.files;
}

pub staged_bucket-IsConsistent : IsConsistent plain_env staged_bucket
staged_bucket-IsConsistent =
    temp-IsConsistent plain_env (codes "upload-1") (codes "dog") cat_bucket cat_bucket-IsConsistent

pub dog_writer-IsSynced : IsSynced dog_writer staged_bucket
unfolding get put bytes_eq
dog_writer-IsSynced = record { is_open = refl; file = refl; md5 = refl; crc = refl; length = refl }

abbrev pub dog_info : ObjectInfo
dog_info = new_info plain_env 9000 dog_writer (codes "photos") (codes "a/cat") (pos 9) red_text

abbrev pub cat_info : ObjectInfo
cat_info = new_info plain_env 5000 cat_writer (codes "photos") (codes "a/cat") (pos 5) red_text

-- A bucket with four objects, for the listings.
abbrev pub zoo_row : ObjectRow
zoo_row = new_row plain_env 7000 cat_writer (pos 7) red_text []

abbrev pub zoo_bucket : Bucket
zoo_bucket = record empty_bucket {
  tables = record {
    objects =
        (codes "a/z", zoo_row)
        ∷ (codes "a/b/2", zoo_row)
        ∷ (codes "a/b/1", zoo_row)
        ∷ (codes "a/a", zoo_row)
        ∷ [];
    blobs = (codes "cat", record { size = 3; refcount = 4 }) ∷ [];
  };
}

abbrev pub zoo_info : Bytes → ObjectInfo
zoo_info name = record (new_info plain_env 7000 cat_writer (codes "photos") name (pos 7) red_text) {
  metadata = [];
}

abbrev pub zoo_infos : List ObjectInfo
zoo_infos =
    zoo_info (codes "a/a")
    ∷ zoo_info (codes "a/b/1")
    ∷ zoo_info (codes "a/b/2")
    ∷ zoo_info (codes "a/z")
    ∷ []

pub red_text-RoundTrips : RoundTrips plain_env red_text
unfolding bytes_eq
red_text-RoundTrips json e = rw (sym (reads json e)) refl
  where
    reads :
        (json : Bytes) → encode plain_env color_red ≡ ok json → codes "{\"color\":\"red\"}" ≡ json
    reads json e = ground arith
