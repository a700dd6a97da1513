-- ===== src/Mm/Kheap/Malloc.antt =====
-- kmalloc of src/kernel/mm/kheap.c.
use swift_bsd.Prelude.{
  ℕ, ◌+◌, ◌-◌, ◌^◌, ◌≤◌, ◌<◌, ◌≡◌, ◌%◌, true, false, arith, Option, none, some, [], ◌∷◌, ltb, leb,
  ◌&&◌, ◌||◌, inl, inr, Bool-cases, refl, add64,
}
use swift_bsd.Mm.Kheap.{
  Block, KheapList, header_size, align_size, take_block, push_block, kmalloc_loop, kmalloc,
}
use swift_bsd.Mm.Kheap.Inv.{Fills, Fills-le, in_use, in_use-inside, owns, has_room}

-- What a call that returns `ptr` has done: a block of `n` bytes at `ptr`, all of them unused before,
-- is in use now, and nothing else has changed hands.
pub record Granted (start end size : ℕ) (heap : KheapList) (ptr n : ℕ) (heap' : KheapList)
    : Type 0 where
  pub fills : Fills start end heap'
  pub enough : size ≤ n
  pub inside : (start + header_size ≤ ptr) × (ptr + n ≤ end)
  pub aligned : ptr % 8 ≡ start % 8
  pub owned : owns ptr n heap' ≡ true
  pub unused : (x : ℕ) → ptr ≤ x → x < ptr + n → in_use heap x ≡ false
  pub uses : (x : ℕ) → in_use heap' x ≡ (leb ptr x && ltb x (ptr + n) || in_use heap x)

pub data Outcome (start end size : ℕ) (heap : KheapList) : Option (ℕ × KheapList) → Type 0 where
  granted :
      (ptr n : ℕ) (heap' : KheapList)
      → Granted start end size heap ptr n heap'
      → Outcome start end size heap (some (ptr, heap'))
  refused : has_room size heap ≡ false → Outcome start end size heap none

-- No byte of the first block is in use behind it.
not_behind :
    (start end : ℕ) (b : Block) (bs : KheapList) (x : ℕ)
    → Fills start end (b ∷ bs)
    → x < b.addr + header_size + b.size
    → in_use bs x ≡ false
not_behind start end b bs x f h = elim (Bool-cases (in_use bs x)) [
  | inl used ↦
      absurd (omega (arith, f.0, in_use-inside (start + header_size + b.size) end bs x f.2 used))
  | inr unused ↦ unused
]

module _ (start end size : ℕ) (b : Block) (bs : KheapList) (f : Fills start end (b ∷ bs))
    (small : end < 2 ^ 64) (round : size % 8 ≡ 0) (free : b.free ≡ true)
    (fits : size ≤ b.size) where
  take_block-Granted_cut :
      size + header_size < b.size
      → Granted start end size (b ∷ bs) (b.addr + header_size) size (take_block size b bs)
  unfolding take_block
  take_block-Granted_cut more =
      let le = Fills-le (start + header_size + b.size) end bs f.2 in
      let test : ltb (add64 size header_size) b.size ≡ true = ground arith in
      let at : start + header_size + b.size
          ≡ start + header_size + size + header_size + (b.size - size - header_size) =
        omega arith in
      let moved : Fills (start + header_size + size + header_size + (b.size - size - header_size))
          end bs =
        rw at at f.2 in
      rw test (record {
        fills = (f.0, round, (omega (arith, f.0), omega (arith, f.1), moved));
        enough = omega arith;
        inside = omega (arith, f.0);
        aligned = omega (arith, f.0);
        owned = ground arith;
        unused = λ x p q. ground (arith, not_behind start end b bs x f);
        uses = λ x. ground arith;
      })

  take_block-Granted_whole :
      b.size ≤ size + header_size
      → Granted start end size (b ∷ bs) (b.addr + header_size) b.size (take_block size b bs)
  unfolding take_block
  take_block-Granted_whole less =
      let le = Fills-le (start + header_size + b.size) end bs f.2 in
      let test : ltb (add64 size header_size) b.size ≡ false = ground arith in
      rw test (record {
        fills = f;
        enough = fits;
        inside = omega (arith, f.0);
        aligned = omega (arith, f.0);
        owned = ground arith;
        unused = λ x p q. ground (arith, not_behind start end b bs x f);
        uses = λ x. ground arith;
      })

  take_block-Granted :
      (n : ℕ) × Granted start end size (b ∷ bs) (b.addr + header_size) n (take_block size b bs)
  take_block-Granted = elim (Bool-cases (ltb (size + header_size) b.size)) [
    | inl more ↦ (size, take_block-Granted_cut (ground arith))
    | inr less ↦ (b.size, take_block-Granted_whole (ground arith))
  ]

Granted-cons :
    {start end size ptr n : ℕ} {b : Block} {bs bs' : KheapList}
    → Fills start end (b ∷ bs)
    → Granted (start + header_size + b.size) end size bs ptr n bs'
    → Granted start end size (b ∷ bs) ptr n (b ∷ bs')
Granted-cons {start} {end} {size} {ptr} {n} {b} {bs} f g = record {
  fills = (f.0, f.1, g.fills);
  enough = g.enough;
  inside = omega (arith, g.inside);
  aligned = omega (arith, g.aligned, f.1);
  owned = ground (arith, g.owned);
  unused = λ x p q. ground (arith, g.unused x, g.inside, f.0);
  uses = λ x. ground (arith, g.uses x);
}

push_block-Outcome :
    {start end size : ℕ} {b : Block} {bs : KheapList} {r : Option (ℕ × KheapList)}
    → Fills start end (b ∷ bs)
    → (b.free && leb size b.size) ≡ false
    → Outcome (start + header_size + b.size) end size bs r
    → Outcome start end size (b ∷ bs) (push_block b r)
push_block-Outcome f miss (granted ptr n bs' g) = granted ptr n _ (Granted-cons f g)
push_block-Outcome f miss (refused none_free) = refused (rw (miss, none_free))

kmalloc_loop-Outcome :
    (start end size : ℕ) (bs : KheapList)
    → Fills start end bs
    → end < 2 ^ 64
    → size % 8 ≡ 0
    → Outcome start end size bs (kmalloc_loop size bs)
unfolding kmalloc_loop
kmalloc_loop-Outcome start end size [] f small round = refused refl
kmalloc_loop-Outcome start end size (b ∷ bs) f small round =
    elim (Bool-cases (b.free && leb size b.size)) [
      | inl hit ↦
          let g =
            take_block-Granted start end size b bs f small round (ground arith) (ground arith) in
          rw hit (granted (b.addr + header_size) g.0 (take_block size b bs) g.1)
      | inr miss ↦ rw miss (
          push_block-Outcome f miss
            (kmalloc_loop-Outcome (start + header_size + b.size) end size bs f.2 small round))
    ]

-- While the blocks fill the pool, kmalloc of at most 2^64 - 8 bytes either returns an aligned block
-- inside the pool that has room for the request, was unused and is now in use, with every other byte
-- as before and the pool still filled; or it returns the null pointer, and then no free block has
-- room for the rounded request.
pub kmalloc-Outcome :
    (start end size : ℕ) (heap : KheapList)
    → Fills start end heap
    → end < 2 ^ 64
    → size ≤ 2 ^ 64 - 8
    → Outcome start end (align_size size) heap (kmalloc heap size) × (size ≤ align_size size)
unfolding kmalloc
kmalloc-Outcome start end size heap f small bound =
    (kmalloc_loop-Outcome start end (align_size size) heap f small (omega arith), omega arith)
