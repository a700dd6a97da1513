-- ===== src/Bitmap.antt =====
-- The bit arrays of src/kernel/mm/pmm.c (bitmap_set, bitmap_clear, bitmap_test) and of
-- src/kernel/fs/swiftfs2.c (bit_set, bit_clear, bit_test): the two files have the same code.
pub mod Count
mod Byte
use swift_bsd.Prelude.{
  ℕ, ◌+◌, ◌-◌, ◌/◌, ◌%◌, ◌^◌, ◌<◌, ◌≡◌, bit_and, bit_or, Bool, arith, update, if◌then◌else◌, true,
  false, ◌==◌, inl, inr, Bool-cases,
}
use Byte.{test_bit-full, set_bit-lt, clear_bit-lt, test-set_bit, test-clear_bit}

-- `uint8_t bm[]`
abbrev pub Bitmap : Type 0
Bitmap = ℕ → ℕ

-- Every element is a byte.
abbrev pub IsBytes : Bitmap → Type 0
IsBytes bm = (i : ℕ) → bm i < 256

-- `bm[p / 8] |= (1 << (p % 8))`
unfoldable pub bit_set : Bitmap → ℕ → Bitmap
bit_set bm p = update bm (p / 8) (bit_or (bm (p / 8)) (2 ^ (p % 8)))

-- `bm[p / 8] &= ~(1 << (p % 8))`, in a byte
unfoldable pub bit_clear : Bitmap → ℕ → Bitmap
bit_clear bm p = update bm (p / 8) (bit_and (bm (p / 8)) (255 - 2 ^ (p % 8)))

-- `(bm[p / 8] >> (p % 8)) & 1`, as a truth value
unfoldable pub bit_test : Bitmap → ℕ → Bool
bit_test bm p = bit_and (bm (p / 8) / 2 ^ (p % 8)) 1 == 1

module _ (bm : Bitmap) (p : ℕ) (v : IsBytes bm) where
  pub bit_set-IsBytes : IsBytes (bit_set bm p)
  unfolding bit_set
  bit_set-IsBytes i = ground (arith, v i, set_bit-lt (bm (p / 8)) (p % 8) (v (p / 8)) (omega arith))

  pub bit_clear-IsBytes : IsBytes (bit_clear bm p)
  unfolding bit_clear
  bit_clear-IsBytes i =
      ground (arith, v i, clear_bit-lt (bm (p / 8)) (p % 8) (v (p / 8)) (omega arith))

  -- A write sets the bit that it is given and leaves every other bit.
  pub bit_test-bit_set :
      (q : ℕ) → bit_test (bit_set bm p) q ≡ (if p == q then true else bit_test bm q)
  unfolding bit_set bit_test
  bit_test-bit_set q = elim (Bool-cases (p / 8 == q / 8)) [
    | inl same ↦
        let e : p / 8 ≡ q / 8 = ground arith in
        ground (
          arith,
          test-set_bit (bm (p / 8)) (p % 8) (q % 8) (v (p / 8)) (omega arith) (omega arith),
          e,
        )
    | inr other ↦ ground arith
  ]

  pub bit_test-bit_clear :
      (q : ℕ) → bit_test (bit_clear bm p) q ≡ (if p == q then false else bit_test bm q)
  unfolding bit_clear bit_test
  bit_test-bit_clear q = elim (Bool-cases (p / 8 == q / 8)) [
    | inl same ↦
        let e : p / 8 ≡ q / 8 = ground arith in
        ground (
          arith,
          test-clear_bit (bm (p / 8)) (p % 8) (q % 8) (v (p / 8)) (omega arith) (omega arith),
          e,
        )
    | inr other ↦ ground arith
  ]

pub bit_test-full : (bm : Bitmap) (p : ℕ) → bm (p / 8) ≡ 255 → bit_test bm p ≡ true
unfolding bit_test
bit_test-full bm p e = rw e (test_bit-full (p % 8) (omega arith))
