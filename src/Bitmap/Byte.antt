-- ===== src/Bitmap/Byte.antt =====
-- One bit of one byte. The laws hold at each of the 256 bytes, by evaluation.
use swift_bsd.Prelude.{
  Bool-cases, inl, inr, ℕ, zero, suc, ◌-◌, ◌/◌, ◌^◌, ◌<◌, ◌≡◌, refl, bit_and, bit_or, Bool, true,
  false, arith, if◌then◌else◌, ◌==◌, ltb, ◌&&◌, ltb→lt,
}

-- `(b >> k) & 1`, as a truth value
abbrev pub test_bit : ℕ → ℕ → Bool
test_bit b k = bit_and (b / 2 ^ k) 1 == 1

-- `b | (1 << k)`
abbrev pub set_bit : ℕ → ℕ → ℕ
set_bit b k = bit_or b (2 ^ k)

-- `b & ~(1 << k)` in a byte
abbrev pub clear_bit : ℕ → ℕ → ℕ
clear_bit b k = bit_and b (255 - 2 ^ k)

abbrev pub eqb : Bool → Bool → Bool
eqb true b = b
eqb false true = false
eqb false false = true

-- whether each number below `n` passes a test
passed_below : (ℕ → Bool) → ℕ → Bool
passed_below test zero = true
passed_below test (suc n) = if test n then passed_below test n else false

passed_below-at : (test : ℕ → Bool) {n x : ℕ} → x < n → passed_below test n ≡ true → test x ≡ true
unfolding passed_below
passed_below-at test {n = zero} inside ok = absurd (omega arith)
passed_below-at test {n = suc n} {x = x} inside ok = elim (Bool-cases (x == n)) [
  | inl last ↦ ground arith
  | inr before ↦ passed_below-at test {n = n} {x = x} (ground arith) (ground arith)
]

eqb→eq : (a b : Bool) → eqb a b ≡ true → a ≡ b
eqb→eq true b h = ground arith
eqb→eq false true h = ground arith
eqb→eq false false h = refl

-- The law of one byte, one written bit and one read bit.
law : ℕ → ℕ → ℕ → Bool
law b k j =
    eqb (test_bit (set_bit b k) j) (if k == j then true else test_bit b j)
    && eqb (test_bit (clear_bit b k) j) (if k == j then false else test_bit b j)
    && ltb (set_bit b k) 256
    && ltb (clear_bit b k) 256

law_table : passed_below (λ b. passed_below (λ k. passed_below (λ j. law b k j) 8) 8) 256 ≡ true
unfolding passed_below law
law_table = refl

law_holds : (b k j : ℕ) → b < 256 → k < 8 → j < 8 → law b k j ≡ true
law_holds b k j hb hk hj =
    passed_below-at (λ j. law b k j) hj
      (passed_below-at (λ k. passed_below (λ j. law b k j) 8) hk
        (passed_below-at (λ b. passed_below (λ k. passed_below (λ j. law b k j) 8) 8) hb law_table))

and_parts :
    (a b c d : Bool) → (a && b && c && d) ≡ true → (a ≡ true) × (b ≡ true) × (c ≡ true) × (d ≡ true)
and_parts a b c d h = ground arith

module _ (b k j : ℕ) (hb : b < 256) (hk : k < 8) (hj : j < 8) where
  parts :
      (eqb (test_bit (set_bit b k) j) (if k == j then true else test_bit b j) ≡ true)
      × (eqb (test_bit (clear_bit b k) j) (if k == j then false else test_bit b j) ≡ true)
      × (ltb (set_bit b k) 256 ≡ true)
      × (ltb (clear_bit b k) 256 ≡ true)
  unfolding law
  parts = and_parts _ _ _ _ (law_holds b k j hb hk hj)

  pub test-set_bit : test_bit (set_bit b k) j ≡ (if k == j then true else test_bit b j)
  test-set_bit = eqb→eq _ _ parts.0

  pub test-clear_bit : test_bit (clear_bit b k) j ≡ (if k == j then false else test_bit b j)
  test-clear_bit = eqb→eq _ _ parts.1

pub set_bit-lt : (b k : ℕ) → b < 256 → k < 8 → set_bit b k < 256
set_bit-lt b k hb hk = ltb→lt _ _ (parts b k 0 hb hk (omega arith)).2

pub clear_bit-lt : (b k : ℕ) → b < 256 → k < 8 → clear_bit b k < 256
clear_bit-lt b k hb hk = ltb→lt _ _ (parts b k 0 hb hk (omega arith)).3

full_table : passed_below (λ k. test_bit 255 k) 8 ≡ true
unfolding passed_below
full_table = refl

pub test_bit-full : (k : ℕ) → k < 8 → test_bit 255 k ≡ true
test_bit-full k h = passed_below-at (λ k. test_bit 255 k) h full_table
