-- ===== src/Prelude/Int.antt =====
-- Signed 64-bit integers, as the integers that they stand for: `negsuc n` is -(n + 1).
use Prim.Native.Nat.{ℕ, zero, suc, ◌+◌, ◌-◌, ◌^◌}
use mathlib.Core.Path.{◌≡◌, refl}
use mathlib.Core.Logic.{◌↔◌, ◌≢◌}
use mathlib.Core.Bool.{Bool, true, false}
use native.Mathlib.Omega.{arith}
use objectstorage.Prelude.Tests.{leb, ◌==◌, if◌then◌else◌}

pub data ℤ : Type 0 where
  pos : ℕ → ℤ
  negsuc : ℕ → ℤ

infix 50 ◌≤ℤ◌ ◌<ℤ◌ ◌==ℤ◌
abbrev pub ◌≤ℤ◌ : ℤ → ℤ → Bool
pos a ≤ℤ pos b = leb a b
pos a ≤ℤ negsuc b = false
negsuc a ≤ℤ pos b = true
negsuc a ≤ℤ negsuc b = leb b a

abbrev pub ◌<ℤ◌ : ℤ → ℤ → Bool
a <ℤ b = if b ≤ℤ a then false else true

abbrev pub ◌==ℤ◌ : ℤ → ℤ → Bool
pos a ==ℤ pos b = a == b
pos a ==ℤ negsuc b = false
negsuc a ==ℤ pos b = false
negsuc a ==ℤ negsuc b = a == b

abbrev pub max_int64 : ℕ
max_int64 = 2 ^ 63 - 1

-- x + 1 in int64, which wraps round at the top.
pub inc64 : ℤ → ℤ
inc64 (pos n) = if n == max_int64 then negsuc max_int64 else pos (n + 1)
inc64 (negsuc zero) = pos 0
inc64 (negsuc (suc n)) = negsuc n

pub ==ℤ_iff : (a b : ℤ) → ((a ==ℤ b) ≡ true) ↔ (a ≡ b)
==ℤ_iff (pos a) (pos b) = ground arith
==ℤ_iff (pos a) (negsuc b) = ground arith
==ℤ_iff (negsuc a) (pos b) = ground arith
==ℤ_iff (negsuc a) (negsuc b) = ground arith

pub lt-inc64 : (a : ℤ) → a ≢ pos max_int64 → (a <ℤ inc64 a) ≡ true
unfolding inc64
lt-inc64 (pos n) h = ground arith
lt-inc64 (negsuc zero) h = refl
lt-inc64 (negsuc (suc n)) h = ground arith

pub <ℤ_trans : (a b c : ℤ) → (a <ℤ b) ≡ true → (b <ℤ c) ≡ true → (a <ℤ c) ≡ true
<ℤ_trans a b c h k = ground arith
