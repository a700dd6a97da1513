-- ===== src/Fs/SwiftFs/Bytes.antt =====
-- The numbers that the packed structs of src/kernel/fs/swiftfs2.h hold, least byte first, and copies between
-- a block and a struct.
use swift_bsd.Prelude.{
  ℕ, zero, suc, ◌+◌, ◌-◌, ◌*◌, ◌/◌, ◌%◌, ◌^◌, ◌≤◌, ◌<◌, ◌≡◌, ◌⊎◌, inl, inr, refl, arith, update,
  ltb, leb, ◌&&◌, if◌then◌else◌, ◌∙◌,
}
use swift_bsd.Fs.SwiftFs.Cache.{Data}

-- the number in `n` bytes at an offset
unfoldable pub get_le : ℕ → Data → ℕ → ℕ
get_le zero d at = 0
get_le (suc n) d at = d at + 256 * get_le n d (at + 1)

unfoldable pub put_le : ℕ → Data → ℕ → ℕ → Data
put_le zero d at v = d
put_le (suc n) d at v = put_le n (update d at (v % 256)) (at + 1) (v / 256)

-- `memcpy(to + at, from, n)`
unfoldable pub copy_into : Data → ℕ → Data → ℕ → Data
copy_into to at from n k = if leb at k && ltb k (at + n) then from (k - at) else to k

pub put_le-before : (n : ℕ) (d : Data) (at v k : ℕ) → k < at → put_le n d at v k ≡ d k
unfolding put_le
put_le-before zero d at v k h = refl
put_le-before (suc n) d at v k h =
    put_le-before n (update d at (v % 256)) (at + 1) (v / 256) k (omega arith) ∙ ground arith

pub put_le-behind : (n : ℕ) (d : Data) (at v k : ℕ) → at + n ≤ k → put_le n d at v k ≡ d k
unfolding put_le
put_le-behind zero d at v k h = refl
put_le-behind (suc n) d at v k h =
    put_le-behind n (update d at (v % 256)) (at + 1) (v / 256) k (omega arith) ∙ ground arith

-- A number that fits is read back.
pub get_le-put_le : (n : ℕ) (d : Data) (at v : ℕ) → v < 256 ^ n → get_le n (put_le n d at v) at ≡ v
unfolding put_le get_le
get_le-put_le zero d at v h = omega arith
get_le-put_le (suc n) d at v h =
    let fits : v / 256 < 256 ^ n = omega arith in
    let rest = get_le-put_le n (update d at (v % 256)) (at + 1) (v / 256) fits in
    let low : put_le n (update d at (v % 256)) (at + 1) (v / 256) at ≡ v % 256 =
      put_le-before n _ (at + 1) (v / 256) at (omega arith) ∙ ground arith in
    omega (arith, rest, low)

get_le-congr :
    (n : ℕ) (d e : Data) (at : ℕ)
    → ((k : ℕ) → at ≤ k → k < at + n → d k ≡ e k)
    → get_le n d at ≡ get_le n e at
unfolding get_le
get_le-congr zero d e at h = refl
get_le-congr (suc n) d e at h = omega (
  arith,
  h at (omega arith) (omega arith),
  get_le-congr n d e (at + 1) (λ k p q. h k (omega arith) (omega arith)),
)

-- Numbers that do not overlap do not disturb each other.
pub get_le-put_le_apart :
    (n m : ℕ) (d : Data) (at other v : ℕ)
    → (other + m ≤ at) ⊎ (at + n ≤ other)
    → get_le m (put_le n d at v) other ≡ get_le m d other
get_le-put_le_apart n m d at other v (inl before) =
    get_le-congr m _ d other (λ k p q. put_le-before n d at v k (omega arith))
get_le-put_le_apart n m d at other v (inr behind) =
    get_le-congr m _ d other (λ k p q. put_le-behind n d at v k (omega arith))
