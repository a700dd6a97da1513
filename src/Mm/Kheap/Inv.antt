-- ===== src/Mm/Kheap/Inv.antt =====
-- The invariant of kheap.c, and which bytes of the pool are in use.
use swift_bsd.Prelude.{
  ℕ, ◌+◌, ◌≤◌, ◌<◌, ◌≡◌, ◌%◌, Bool, true, false, not, arith, [], ◌∷◌, ltb, leb, ◌==◌, ◌&&◌, ◌||◌,
}
use swift_bsd.Mm.Kheap.{Block, KheapList, header_size}

-- The blocks fill the memory from `start` to `end` without a gap, headers included, and each size
-- is a multiple of 8.
abbrev pub Fills : ℕ → ℕ → KheapList → Type 0
Fills start end [] = start ≡ end
Fills start end (b ∷ bs) =
    (b.addr ≡ start) × (b.size % 8 ≡ 0) × Fills (start + header_size + b.size) end bs

-- whether `x` is a byte of the block's payload
abbrev pub holds : Block → ℕ → Bool
holds b x = leb (b.addr + header_size) x && ltb x (b.addr + header_size + b.size)

-- whether `x` is a byte of a block in use
abbrev pub in_use : KheapList → ℕ → Bool
in_use [] x = false
in_use (b ∷ bs) x = (not b.free && holds b x) || in_use bs x

pub Fills-le : (start end : ℕ) (bs : KheapList) → Fills start end bs → start ≤ end
Fills-le start end [] f = omega arith
Fills-le start end (b ∷ bs) f = omega (arith, Fills-le (start + header_size + b.size) end bs f.2)

-- A byte in use lies inside the memory that the blocks fill.
pub in_use-inside :
    (start end : ℕ) (bs : KheapList) (x : ℕ)
    → Fills start end bs
    → in_use bs x ≡ true
    → (start + header_size ≤ x) × (x < end)
in_use-inside start end [] x f h = absurd (cc)
in_use-inside start end (b ∷ bs) x f h = ground (
  arith,
  Fills-le (start + header_size + b.size) end bs f.2,
  in_use-inside (start + header_size + b.size) end bs x f.2,
)

-- whether a block in use has its payload of `n` bytes at `ptr`
abbrev pub owns : ℕ → ℕ → KheapList → Bool
owns ptr n [] = false
owns ptr n (b ∷ bs) = (b.addr + header_size == ptr && b.size == n && not b.free) || owns ptr n bs

-- whether some free block has room for `size` bytes
abbrev pub has_room : ℕ → KheapList → Bool
has_room size [] = false
has_room size (b ∷ bs) = (b.free && leb size b.size) || has_room size bs
