-- ===== src/S3/Tests/Paths.antt =====
-- Paths of requests.
use objectstorage.Prelude.{some, [], ◌∷◌, ◌++◌, ◌≡◌, refl}
use objectstorage.Prelude.Bytes.{codes}
use objectstorage.Http.Text.{join_with}
use objectstorage.Http.Path.{
  split_path, split_path-slash, split_path-join_with, BeginsOther, EndsOther,
}

split_path-slash_example :
    split_path (codes "/photos/dir" ++ b'/' ∷ []) ≡ split_path (codes "/photos/dir")
split_path-slash_example = split_path-slash (codes "/photos/dir")

begins : BeginsOther (join_with b'/' (codes "p" ∷ [] ∷ codes "a" ∷ []))
unfolding join_with
begins = refl

ends : EndsOther (join_with b'/' (codes "p" ∷ [] ∷ codes "a" ∷ []))
unfolding join_with
ends = refl

split_path-join_with_example :
    split_path (b'/' ∷ join_with b'/' (codes "p" ∷ [] ∷ codes "a" ∷ []))
    ≡ some (codes "p" ∷ [] ∷ codes "a" ∷ [])
split_path-join_with_example =
    split_path-join_with (codes "p") ([] ∷ codes "a" ∷ [])
      ((refl, refl, tt), (tt, ((refl, refl, tt), tt))) begins ends
