-- ===== src/Bitmap/Count.antt =====
-- The number of clear bits, which pmm.c and swiftfs2.c keep in a counter.
use swift_bsd.Prelude.{refl, ℕ, zero, suc, ◌+◌, ◌<◌, ◌≤◌, ◌≡◌, true, false, arith, if◌then◌else◌}
use swift_bsd.Bitmap.{
  Bitmap, IsBytes, bit_set, bit_clear, bit_test, bit_test-bit_set, bit_test-bit_clear,
}

-- how many of the bits below `n` are clear
unfoldable pub clear_bits : ℕ → Bitmap → ℕ
clear_bits zero bm = 0
clear_bits (suc n) bm = (if bit_test bm n then 0 else 1) + clear_bits n bm

module _ (bm : Bitmap) (p : ℕ) (v : IsBytes bm) where
  clear_bits-bit_set_above : (n : ℕ) → n ≤ p → clear_bits n (bit_set bm p) ≡ clear_bits n bm
  unfolding clear_bits
  clear_bits-bit_set_above zero h = omega arith
  clear_bits-bit_set_above (suc n) h =
      ground (arith, bit_test-bit_set bm p v n, clear_bits-bit_set_above n)

  clear_bits-bit_clear_above : (n : ℕ) → n ≤ p → clear_bits n (bit_clear bm p) ≡ clear_bits n bm
  unfolding clear_bits
  clear_bits-bit_clear_above zero h = omega arith
  clear_bits-bit_clear_above (suc n) h =
      ground (arith, bit_test-bit_clear bm p v n, clear_bits-bit_clear_above n)

  pub clear_bits-bit_set :
      (n : ℕ) → p < n → bit_test bm p ≡ false → clear_bits n (bit_set bm p) + 1 ≡ clear_bits n bm
  unfolding clear_bits
  clear_bits-bit_set zero h e = absurd (omega arith)
  clear_bits-bit_set (suc n) h e =
      ground (arith, bit_test-bit_set bm p v n, clear_bits-bit_set n, clear_bits-bit_set_above n)

  pub clear_bits-bit_clear :
      (n : ℕ) → p < n → bit_test bm p ≡ true → clear_bits n (bit_clear bm p) ≡ clear_bits n bm + 1
  unfolding clear_bits
  clear_bits-bit_clear zero h e = absurd (omega arith)
  clear_bits-bit_clear (suc n) h e =
      ground
        (arith, bit_test-bit_clear bm p v n, clear_bits-bit_clear n, clear_bits-bit_clear_above n)

  clear_bits_pos : (n : ℕ) → p < n → bit_test bm p ≡ false → 0 < clear_bits n bm
  clear_bits_pos n h e = omega (arith, clear_bits-bit_set n h e)

pub clear_bits-zero :
    (n : ℕ) (bm : Bitmap) → ((p : ℕ) → p < n → bit_test bm p ≡ true) → clear_bits n bm ≡ 0
unfolding clear_bits
clear_bits-zero zero bm h = refl
clear_bits-zero (suc n) bm h = ground (arith, h n, clear_bits-zero n bm (λ p q. h p (omega arith)))

pub clear_bits-bound : (n : ℕ) (bm : Bitmap) → clear_bits n bm ≤ n
unfolding clear_bits
clear_bits-bound zero bm = omega arith
clear_bits-bound (suc n) bm = ground (arith, clear_bits-bound n bm)
