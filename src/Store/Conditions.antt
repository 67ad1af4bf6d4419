-- ===== src/Store/Conditions.antt =====
-- `Conditions.check` of pkg/store/types.go, against what GCS preconditions mean.
use objectstorage.Prelude.{
  Option, none, some, Bool, true, false, not, ◌&&◌, if◌then◌else◌, ◌≡◌, ◌≢◌, ◌↔◌, refl, arith,
}
use objectstorage.Prelude.Int.{ℤ, pos, ◌==ℤ◌, ==ℤ_iff}
use objectstorage.Store.Types.{Error, precondition_failed, ObjectInfo, Conditions}

-- `c != nil && n != *c`
abbrev pub differs : Option ℤ → ℤ → Bool
differs none n = false
differs (some v) n = not (n ==ℤ v)

-- `c != nil && n == *c`
abbrev pub coincides : Option ℤ → ℤ → Bool
coincides none n = false
coincides (some v) n = n ==ℤ v

abbrev pub generation_of : Option ObjectInfo → ℤ
generation_of none = pos 0
generation_of (some o) = o.generation

abbrev pub metageneration_of : Option ObjectInfo → ℤ
metageneration_of none = pos 0
metageneration_of (some o) = o.metageneration

abbrev is_live : Option ObjectInfo → Bool
is_live none = false
is_live (some o) = true

-- `none` is the nil error.
unfoldable pub check : Conditions → Option ObjectInfo → Option Error
check c existing =
    let gen = generation_of existing in
    let metagen = metageneration_of existing in
    if differs c.generation_match gen
    then some precondition_failed
    else if is_live existing && coincides c.generation_not_match gen
    then some precondition_failed
    else if differs c.metageneration_match metagen
    then some precondition_failed
    else if is_live existing && coincides c.metageneration_not_match metagen
    then some precondition_failed
    else none

-- What the preconditions ask. `live` is the number of the live object, `none` where no object is live: a
-- match condition holds of that number, or is 0 where there is none.
abbrev pub Matches : Option ℤ → Option ℤ → Type 0
Matches none live = Unit {0}
Matches (some v) none = v ≡ pos 0
Matches (some v) (some n) = n ≡ v

-- A not-match condition holds of every other number, and where there is none.
abbrev pub Avoids : Option ℤ → Option ℤ → Type 0
Avoids none live = Unit {0}
Avoids (some v) none = Unit {0}
Avoids (some v) (some n) = n ≢ v

abbrev pub number_of : (ObjectInfo → ℤ) → Option ObjectInfo → Option ℤ
number_of f none = none
number_of f (some o) = some (f o)

pub record Satisfies (c : Conditions) (existing : Option ObjectInfo) : Type 0 where
  pub matches : Matches c.generation_match (number_of (λ o. o.generation) existing)
  pub differs_from : Avoids c.generation_not_match (number_of (λ o. o.generation) existing)
  pub metageneration_matches :
      Matches c.metageneration_match (number_of (λ o. o.metageneration) existing)
  pub metageneration_differs_from :
      Avoids c.metageneration_not_match (number_of (λ o. o.metageneration) existing)

differs-Matches : (c : Option ℤ) (n : ℤ) → (differs c n ≡ false) ↔ Matches c (some n)
differs-Matches none n = (λ h. tt, λ h. refl)
differs-Matches (some w) n =
    (λ h. ground (arith, h, ==ℤ_iff n w), λ h. ground (arith, h, ==ℤ_iff n w))

-- Where no object is live, both numbers are 0.
absent-Matches : (c : Option ℤ) → (differs c (pos 0) ≡ false) ↔ Matches c none
absent-Matches none = (λ h. tt, λ h. refl)
absent-Matches (some w) =
    (λ h. ground (arith, h, ==ℤ_iff (pos 0) w), λ h. ground (arith, h, ==ℤ_iff (pos 0) w))

coincides-Avoids : (c : Option ℤ) (n : ℤ) → (coincides c n ≡ false) ↔ Avoids c (some n)
coincides-Avoids none n = (λ h. tt, λ h. refl)
coincides-Avoids (some w) n =
    (λ h. ground (arith, h, ==ℤ_iff n w), λ h. ground (arith, h, ==ℤ_iff n w))

absent-Avoids : (c : Option ℤ) → Avoids c none
absent-Avoids none = tt
absent-Avoids (some w) = tt

pub check_sound : (c : Conditions) (x : Option ObjectInfo) → check c x ≡ none → Satisfies c x
unfolding check
check_sound c none h = record {
  matches = (absent-Matches c.generation_match).0 (ground (arith, h));
  differs_from = absent-Avoids c.generation_not_match;
  metageneration_matches = (absent-Matches c.metageneration_match).0 (ground (arith, h));
  metageneration_differs_from = absent-Avoids c.metageneration_not_match;
}
check_sound c (some x) h = record {
  matches = (differs-Matches c.generation_match x.generation).0 (ground (arith, h));
  differs_from = (coincides-Avoids c.generation_not_match x.generation).0 (ground (arith, h));
  metageneration_matches =
      (differs-Matches c.metageneration_match x.metageneration).0 (ground (arith, h));
  metageneration_differs_from =
      (coincides-Avoids c.metageneration_not_match x.metageneration).0 (ground (arith, h));
}

check_complete : (c : Conditions) (x : Option ObjectInfo) → Satisfies c x → check c x ≡ none
unfolding check
check_complete c none s =
    let first = (absent-Matches c.generation_match).1 s.matches in
    let second = (absent-Matches c.metageneration_match).1 s.metageneration_matches in
    ground (arith, first, second)
check_complete c (some x) s =
    let g = (differs-Matches c.generation_match x.generation).1 s.matches in
    let g' = (coincides-Avoids c.generation_not_match x.generation).1 s.differs_from in
    let m = (differs-Matches c.metageneration_match x.metageneration).1 s.metageneration_matches in
    let m' =
      (coincides-Avoids c.metageneration_not_match x.metageneration).1
        s.metageneration_differs_from in
    ground (arith, g, g', m, m')

-- `check` passes exactly when the preconditions hold of the live object, or of its absence.
pub check_iff : (c : Conditions) (x : Option ObjectInfo) → (check c x ≡ none) ↔ Satisfies c x
check_iff c x = (check_sound c x, check_complete c x)
