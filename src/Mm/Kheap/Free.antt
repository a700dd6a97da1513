-- ===== src/Mm/Kheap/Free.antt =====
-- kfree of src/kernel/mm/kheap.c.
use swift_bsd.Prelude.{
  ℕ, ◌+◌, ◌≤◌, ◌≡◌, ◌≢◌, true, false, not, arith, some, [], ◌∷◌, ltb, leb, ◌==◌, ◌&&◌, inl, inr,
  Bool-cases, refl, ◌∙◌,
}
use swift_bsd.Mm.Kheap.{Block, KheapList, header_size, mark_free, coalesce, kfree}
use swift_bsd.Mm.Kheap.Inv.{Fills, Fills-le, in_use, in_use-inside, owns}

owns-inside :
    (start end ptr n : ℕ) (bs : KheapList)
    → Fills start end bs
    → owns ptr n bs ≡ true
    → (start + header_size ≤ ptr) × (ptr + n ≤ end)
owns-inside start end ptr n [] f h = absurd (cc)
owns-inside start end ptr n (b ∷ bs) f h = ground (
  arith,
  Fills-le (start + header_size + b.size) end bs f.2,
  owns-inside (start + header_size + b.size) end ptr n bs f.2,
)

-- `heap'` is `heap` with the block of `n` bytes at `ptr` given back.
pub record Returned (start end : ℕ) (heap : KheapList) (ptr n : ℕ) (heap' : KheapList)
    : Type 0 where
  pub fills : Fills start end heap'
  pub uses : (x : ℕ) → in_use heap' x ≡ (in_use heap x && not (leb ptr x && ltb x (ptr + n)))
  pub others : (p m : ℕ) → p ≢ ptr → owns p m heap' ≡ owns p m heap

mark_free-Returned_here :
    {start end : ℕ} {b : Block} {bs : KheapList}
    → Fills start end (b ∷ bs)
    → b.free ≡ false
    → Returned start end (b ∷ bs) (b.addr + header_size) b.size (record b { free = true } ∷ bs)
mark_free-Returned_here {start} {end} {b} {bs} f used = record {
  fills = f;
  uses = λ x. ground (arith, in_use-inside (start + header_size + b.size) end bs x f.2);
  others = λ p m ne. ground arith;
}

mark_free-Returned_cons :
    {start end ptr n : ℕ} {b : Block} {bs bs' : KheapList}
    → Fills start end (b ∷ bs)
    → start + header_size + b.size + header_size ≤ ptr
    → Returned (start + header_size + b.size) end bs ptr n bs'
    → Returned start end (b ∷ bs) ptr n (b ∷ bs')
mark_free-Returned_cons {start} {end} {ptr} {n} {b} {bs} {bs'} f far r = record {
  fills = (f.0, f.1, r.fills);
  uses = λ x. ground (arith, r.uses x, f.0);
  others = λ p m ne. ground (arith, r.others p m);
}

mark_free-Returned :
    (start end ptr n : ℕ) (bs : KheapList)
    → Fills start end bs
    → owns ptr n bs ≡ true
    → (bs' : KheapList) × (mark_free ptr bs ≡ some bs') × Returned start end bs ptr n bs'
unfolding mark_free
mark_free-Returned start end ptr n [] f own = absurd (cc)
mark_free-Returned start end ptr n (b ∷ bs) f own = elim (Bool-cases (owns ptr n bs)) [
  | inl behind ↦
      let far = owns-inside (start + header_size + b.size) end ptr n bs f.2 behind in
      let miss : (b.addr + header_size == ptr) ≡ false = ground (arith, f.0) in
      let r = mark_free-Returned (start + header_size + b.size) end ptr n bs f.2 behind in
      (b ∷ r.0, rw (miss, r.1), mark_free-Returned_cons f far.0 r.2)
  | inr not_behind ↦
      let e : b.addr + header_size ≡ ptr = ground arith in
      let e' : b.size ≡ n = ground arith in
      let hit : (b.addr + header_size == ptr) ≡ true = ground arith in
      let used : b.free ≡ false = ground arith in
      (record b { free = true } ∷ bs, rw hit, rw (← e, ← e') (mark_free-Returned_here f used))
]

-- Merging free blocks changes neither the pool's bounds nor what is in use.
record Same (start end : ℕ) (heap heap' : KheapList) : Type 0 where
  fills : Fills start end heap'
  uses : (x : ℕ) → in_use heap' x ≡ in_use heap x
  others : (p m : ℕ) → owns p m heap' ≡ owns p m heap

module _ {start end : ℕ} {b c : Block} {bs bs' : KheapList} where
  Same-merged :
      Fills start end (b ∷ c ∷ bs)
      → (b.free && c.free) ≡ true
      → Same (start + header_size + b.size + header_size + c.size) end bs bs'
      → Same start end (b ∷ c ∷ bs) (record b { size = b.size + (header_size + c.size) } ∷ bs')
  Same-merged f both s =
      let at : start + header_size + b.size + header_size + c.size
          ≡ start + header_size + (b.size + (header_size + c.size)) =
        omega arith in
      record {
        fills = (f.0, omega (arith, f.1, f.2), rw at at s.fills);
        uses = λ x. ground (arith, s.uses x);
        others = λ p m. ground (arith, s.others p m);
      }

Same-cons :
    {start end : ℕ} {b : Block} {bs bs' : KheapList}
    → Fills start end (b ∷ bs)
    → Same (start + header_size + b.size) end bs bs'
    → Same start end (b ∷ bs) (b ∷ bs')
Same-cons f s = record {
  fills = (f.0, f.1, s.fills);
  uses = λ x. rw (s.uses x);
  others = λ p m. rw (s.others p m);
}

coalesce-Same :
    (start end : ℕ) (bs : KheapList) → Fills start end bs → Same start end bs (coalesce bs)
unfolding coalesce
coalesce-Same start end [] f = record { fills = f; uses = λ x. refl; others = λ p m. refl }
coalesce-Same start end (b ∷ []) f = record { fills = f; uses = λ x. refl; others = λ p m. refl }
coalesce-Same start end (b ∷ c ∷ bs) f = elim (Bool-cases (b.free && c.free)) [
  | inl both ↦ rw both (Same-merged f both (coalesce-Same _ end bs f.2.2))
  | inr apart ↦
      rw apart (Same-cons f (coalesce-Same (start + header_size + b.size) end (c ∷ bs) f.2))
]

-- kfree of a block in use succeeds: exactly its bytes are no longer in use, every other block stays
-- owned as it was, and the blocks still fill the pool.
pub kfree-Returned :
    (start end ptr n : ℕ) (heap : KheapList)
    → Fills start end heap
    → owns ptr n heap ≡ true
    → (heap' : KheapList) × (kfree heap ptr ≡ some heap') × Returned start end heap ptr n heap'
unfolding kfree
kfree-Returned start end ptr n heap f own =
    let r = mark_free-Returned start end ptr n heap f own in
    let s = coalesce-Same start end r.0 r.2.fills in
    let some_ptr : (ptr == 0) ≡ false = ground (arith, owns-inside start end ptr n heap f own) in
    (
      coalesce r.0,
      rw (some_ptr, r.1),
      record {
        fills = s.fills;
        uses = λ x. s.uses x ∙ r.2.uses x;
        others = λ p m ne. s.others p m ∙ r.2.others p m ne;
      },
    )

coalesce_head :
    (c : Block) (bs : KheapList)
    → (d : Block) × (ds : KheapList) × (coalesce (c ∷ bs) ≡ d ∷ ds) × (d.free ≡ c.free)
unfolding coalesce
coalesce_head c [] = (c, [], refl, refl)
coalesce_head c (e ∷ bs) = elim (Bool-cases (c.free && e.free)) [
  | inl both ↦ (record c { size = c.size + (header_size + e.size) }, coalesce bs, rw both, refl)
  | inr apart ↦ (c, coalesce (e ∷ bs), rw apart, refl)
]

-- Freeing a block between two free ones does not merge all three: whenever the first and
-- the third block are free, kfree of the second leaves two free blocks beside each other.
pub kfree-leaves_adjacent :
    (a b c : Block) (bs : KheapList)
    → a.free ≡ true
    → c.free ≡ true
    → b.addr ≢ a.addr
    → (d e : Block) × (ds : KheapList) × (kfree (a ∷ b ∷ c ∷ bs) (b.addr + header_size)
        ≡ some (d ∷ e ∷ ds))
      × (d.free ≡ true)
      × (e.free ≡ true)
unfolding kfree mark_free coalesce
kfree-leaves_adjacent a b c bs fa fc ne =
    let r = coalesce_head c bs in
    let some_ptr : (b.addr + header_size == 0) ≡ false = ground arith in
    let miss : (a.addr + header_size == b.addr + header_size) ≡ false = ground arith in
    let hit : (b.addr + header_size == b.addr + header_size) ≡ true = ground arith in
    let d : Block = record a { size = a.size + (header_size + b.size) } in
    (d, r.0, r.1, rw (some_ptr, miss, hit, fa, r.2), fa, r.3 ∙ fc)
