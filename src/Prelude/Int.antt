-- ===== src/Prelude/Int.antt =====
-- Signed integers over the native numbers: what the program's `int` variables need.
use Prim.Native.Nat.{ℕ, zero, suc, ◌-◌, ◌^◌}
use mathlib.Core.Path.{◌≡◌, refl}
use mathlib.Core.Bool.{Bool, true, false}
use native.Mathlib.Omega.{arith}
use swift_bsd.Prelude.Tests.{◌==◌, ltb, if◌then◌else◌}

-- `negsuc n` is -(n + 1).
pub data ℤ : Type 0 where
  pos : ℕ → ℤ
  negsuc : ℕ → ℤ

abbrev pub is_negative : ℤ → Bool
is_negative (pos n) = false
is_negative (negsuc n) = true

abbrev pub same_int : ℤ → ℤ → Bool
same_int (pos a) (pos b) = a == b
same_int (pos a) (negsuc b) = false
same_int (negsuc a) (pos b) = false
same_int (negsuc a) (negsuc b) = a == b

-- `x++` and `x--`
abbrev pub increment : ℤ → ℤ
increment (pos n) = pos (suc n)
increment (negsuc zero) = pos 0
increment (negsuc (suc n)) = negsuc n

abbrev pub decrement : ℤ → ℤ
decrement (pos zero) = negsuc 0
decrement (pos (suc n)) = pos n
decrement (negsuc n) = negsuc (suc n)

-- a number of 32 bits as an int
unfoldable pub as_int : ℕ → ℤ
as_int n = if ltb n (2 ^ 31) then pos n else negsuc (2 ^ 32 - 1 - n)

pub same_int_refl : (a : ℤ) → same_int a a ≡ true
same_int_refl (pos n) = ground arith
same_int_refl (negsuc n) = ground arith

pub same_int→eq : (a b : ℤ) → same_int a b ≡ true → a ≡ b
same_int→eq (pos a) (pos b) h = ground arith
same_int→eq (pos a) (negsuc b) h = ground arith
same_int→eq (negsuc a) (pos b) h = ground arith
same_int→eq (negsuc a) (negsuc b) h = ground arith

pub decrement-increment : (a : ℤ) → decrement (increment a) ≡ a
decrement-increment (pos n) = refl
decrement-increment (negsuc zero) = refl
decrement-increment (negsuc (suc n)) = refl
