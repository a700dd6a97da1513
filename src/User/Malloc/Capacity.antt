-- ===== src/User/Malloc/Capacity.antt =====
-- The buckets of src/userland/malloc.h, and free after malloc.
use swift_bsd.Prelude.{
  ℕ, ◌+◌, ◌-◌, ◌≤◌, ◌<◌, ◌≡◌, ◌≢◌, refl, sym, ap, ◌∙◌, inl, inr, arith, Bool, true, false, some,
  none, zero, suc, ◌*◌, ◌^◌, ◌⊎◌, add64, update_same, Option-cases, find_first, find_first-none,
  ◌==◌, leb, ltb, update, Bool-cases, find_first-Found, Found, unequal_test,
}
use native.Mathlib.Nat.{pow-suc}
use swift_bsd.Fs.SwiftFs.Bytes.{
  put_le-before, put_le-behind, put_le, get_le-put_le, get_le-put_le_apart,
}
use swift_bsd.User.Malloc.{
  UserHeap, malloc_buckets, malloc_max, sizeof_hdr, bucket_sz, malloc_bucket, hdr_magic, hdr_bucket,
  hdr_next, push_hdr, pop_hdr, from_bucket, malloc, free,
}

power_grows : (k j : ℕ) → k + j ≡ 8 → 2 ^ k ≤ 2 ^ 8
power_grows k zero e =
    let last : k ≡ 8 = omega (arith, e) in
    let same : 2 ^ k ≡ 2 ^ 8 = ap (λ n. 2 ^ n) last in omega (arith, same)
power_grows k (suc j) e =
    let more : 2 ^ suc k ≤ 2 ^ 8 = power_grows (suc k) j (omega (arith, e)) in
    let double : 2 ^ suc k ≡ 2 ^ k * 2 = pow-suc 2 k in omega (arith, more, double)

bucket_sz_bound : (b : ℕ) → b < malloc_buckets → bucket_sz b ≤ 4096
bucket_sz_bound b h =
    let grows : 2 ^ b ≤ 2 ^ 8 = power_grows b (8 - b) (omega (arith, h)) in omega (arith, grows)

zero_only : (b : ℕ) → some 0 ≡ some b → b ≡ 0
zero_only b e = ground (arith, e)

is_within : (a b : ℕ) → leb a b ≡ true → a ≤ b
is_within a b h = ground arith

is_above : (a b : ℕ) → leb a b ≡ false → b < a
is_above a b h = ground arith

-- the room for the header and `size` bytes, in a block of bucket `i`
abbrev has_room : ℕ → ℕ → Bool
has_room size i = leb (add64 size sizeof_hdr) (bucket_sz i)

short_bucket : (size : ℕ) → size ≤ 16 → malloc_bucket size ≡ some 0
unfolding malloc_bucket
short_bucket size short = let e : leb size 16 ≡ true = ground arith in rw e refl

long_bucket :
    (size : ℕ) → 16 < size → malloc_bucket size ≡ find_first malloc_buckets 0 (has_room size)
unfolding malloc_bucket
long_bucket size long = let e : leb size 16 ≡ false = ground arith in rw e refl

malloc_bucket-low : (size b : ℕ) → malloc_bucket size ≡ some b → b < malloc_buckets
malloc_bucket-low size b e = elim (Bool-cases (leb size 16)) [
  | inl short ↦ omega (arith, zero_only b (sym (short_bucket size (is_within _ _ short)) ∙ e))
  | inr long ↦
      let found : Found malloc_buckets 0 (has_room size) b =
        find_first-Found malloc_buckets 0 (has_room size)
          (sym (long_bucket size (is_above _ _ long)) ∙ e) in
      omega (arith, found.high)
]

module _ (size : ℕ) (long : 16 < size) (small : size ≤ malloc_max) where
  with_header : add64 size sizeof_hdr ≡ size + sizeof_hdr
  with_header = omega arith

  -- the bucket of a request that fits one
  abbrev Least : ℕ → Type 0
  Least b =
      (malloc_bucket size ≡ some b)
      × (b < malloc_buckets)
      × (size + sizeof_hdr ≤ bucket_sz b)
      × ((i : ℕ) → i < b → bucket_sz i < size + sizeof_hdr)

  found-Least : (b : ℕ) → find_first malloc_buckets 0 (has_room size) ≡ some b → Least b
  found-Least b e =
      let found : Found malloc_buckets 0 (has_room size) b =
        find_first-Found malloc_buckets 0 (has_room size) e in
      (
        long_bucket size long ∙ e,
        omega (arith, found.high),
        omega (arith, is_within _ _ found.passes, with_header),
        λ i less. omega (arith, is_above _ _ (found.first i (omega arith) less), with_header),
      )

  fits-Least : size ≤ 4080 → (b : ℕ) × Least b
  fits-Least fits = elim (Option-cases (find_first malloc_buckets 0 (has_room size))) [
    | inl full ↦
        let last =
          find_first-none malloc_buckets 0 (has_room size) full 8 (omega arith) (omega arith) in
        absurd (omega (arith, is_above _ _ last, with_header))
    | inr (b, e) ↦ (b, found-Least b e)
  ]

  none_has_room : 4080 < size → malloc_bucket size ≡ none
  none_has_room large = elim (Option-cases (find_first malloc_buckets 0 (has_room size))) [
    | inl full ↦ long_bucket size long ∙ full
    | inr (b, e) ↦
        let (_, low, room, _) = found-Least b e in
        absurd (omega (arith, room, bucket_sz_bound b low, large))
  ]

-- A request of 17 to 4080 bytes goes to the least bucket whose blocks have room for it behind the header. One of 1 to
-- 16 bytes goes to bucket 0, whose blocks have none. One of 4081 to 4096 bytes goes to no bucket.
pub malloc_bucket-fits :
    (size : ℕ)
    → 0 < size
    → size ≤ malloc_max
    → (16 < size
        → size ≤ 4080
        → (b : ℕ) × ((malloc_bucket size ≡ some b)
            × (b < malloc_buckets)
            × (size + sizeof_hdr ≤ bucket_sz b)
            × ((i : ℕ) → i < b → bucket_sz i < size + sizeof_hdr)))
      × (size ≤ 16 → (malloc_bucket size ≡ some 0) × (bucket_sz 0 < size + sizeof_hdr))
      × (4080 < size → malloc_bucket size ≡ none)
malloc_bucket-fits size positive small = (
  (λ long fits. fits-Least size long small fits),
  (λ short. (short_bucket size short, omega arith)),
  λ large. none_has_room size (omega arith) small large,
)

module _ (granted : ℕ → ℕ → Bool) (size b : ℕ) (positive : 0 < size) (small : size ≤ malloc_max)
    (bucket : malloc_bucket size ≡ some b) where
  -- With a block on the list, malloc takes the head of the list of its bucket.
  malloc-pop_hdr : (s : UserHeap) → s.free_lists b ≢ 0 → malloc granted size s ≡ pop_hdr b s
  unfolding malloc from_bucket
  malloc-pop_hdr s ne =
      let some_size = unequal_test size 0 (λ e. omega (arith, e, positive)) in
      let no_page : ltb malloc_max size ≡ false = ground arith in
      rw (some_size, no_page, bucket, unequal_test (s.free_lists b) 0 ne) refl

  module _ (s : UserHeap) (there : s.free_lists b ≢ 0)
      (marked : hdr_bucket s (s.free_lists b) ≡ b) where
    abbrev head : ℕ
    head = s.free_lists b

    abbrev popped : UserHeap
    popped = record s {
      free_lists = update s.free_lists b (hdr_next s head);
      bytes = put_le 2 s.bytes head 0xBEEF;
    }

    bucket_fits : b < malloc_buckets
    bucket_fits = malloc_bucket-low size b bucket

    pop_head : pop_hdr b s ≡ (some (head + sizeof_hdr), popped)
    unfolding pop_hdr
    pop_head = rw (unequal_test head 0 there) refl

    free_head : free (head + sizeof_hdr) popped ≡ push_hdr b head popped
    unfolding free
    free_head =
        let magic : hdr_magic popped head ≡ 0xBEEF =
          get_le-put_le 2 s.bytes head 0xBEEF (omega arith) in
        let its : hdr_bucket popped head ≡ b =
          get_le-put_le_apart 2 2 s.bytes head (head + 2) 0xBEEF (inr (omega arith)) ∙ marked in
        let place : head + sizeof_hdr - sizeof_hdr ≡ head = omega arith in
        let some_ptr = unequal_test (head + sizeof_hdr) 0 (λ e. omega (arith, e)) in
        let in_range : leb malloc_buckets b ≡ false = ground (arith, bucket_fits) in
        rw (some_ptr, place, magic, its, in_range) refl

    abbrev pushed : UserHeap
    pushed = push_hdr b head popped

    lists : (i : ℕ) → pushed.free_lists i ≡ s.free_lists i
    unfolding push_hdr
    lists i = elim (Bool-cases (b == i)) [
      | inl same ↦ ground (arith, same)
      | inr other ↦ rw other refl
    ]

    pop_again : (pop_hdr b pushed).0 ≡ some (head + sizeof_hdr)
    unfolding pop_hdr
    pop_again =
        rw (unequal_test (pushed.free_lists b) 0 (λ e. there (sym (lists b) ∙ e)))
          (ap (λ h. some (h + sizeof_hdr)) (lists b))

    next_kept : hdr_next s head < 2 ^ 64 → hdr_next pushed head ≡ hdr_next s head
    unfolding push_hdr
    next_kept fits =
        let first : popped.free_lists b ≡ hdr_next s head =
          update_same s.free_lists b (hdr_next s head) in
        get_le-put_le 8 popped.bytes (head + 8) (popped.free_lists b) (omega (arith, first, fits))
        ∙ first

    outside_kept : (a : ℕ) → (a < head) ⊎ (head + sizeof_hdr ≤ a) → pushed.bytes a ≡ s.bytes a
    unfolding push_hdr
    outside_kept a (inl before) =
        put_le-before 8 popped.bytes (head + 8) (popped.free_lists b) a (omega arith)
        ∙ put_le-before 2 s.bytes head 0xBEEF a before
    outside_kept a (inr behind) =
        put_le-behind 8 popped.bytes (head + 8) (popped.free_lists b) a (omega arith)
        ∙ put_le-behind 2 s.bytes head 0xBEEF a (omega arith)

    -- With a block of the right bucket at the head of its list, malloc gives the memory behind the header of that
    -- block. After free of that pointer every list has the head it had, the header of the block links to the block
    -- it linked to, and no byte outside that header has changed. The next malloc of the same size gives it again.
    pub free-malloc :
        hdr_next s head < 2 ^ 64
        → ((malloc granted size s).0 ≡ some (head + sizeof_hdr))
          × (let t = free (head + sizeof_hdr) (malloc granted size s).1 in
              ((i : ℕ) → t.free_lists i ≡ s.free_lists i)
              × (hdr_next t head ≡ hdr_next s head)
              × ((a : ℕ) → (a < head) ⊎ (head + sizeof_hdr ≤ a) → t.bytes a ≡ s.bytes a)
              × ((malloc granted size t).0 ≡ some (head + sizeof_hdr)))
    free-malloc fits =
        let taken : malloc granted size s ≡ (some (head + sizeof_hdr), popped) =
          malloc-pop_hdr s there ∙ pop_head in
        let freed : free (head + sizeof_hdr) (malloc granted size s).1 ≡ pushed =
          ap (λ r. free (head + sizeof_hdr) r.1) taken ∙ free_head in
        (
          ap (λ r. r.0) taken,
          (
            (λ i. ap (λ t. t.free_lists i) freed ∙ lists i),
            ap (λ t. hdr_next t head) freed ∙ next_kept fits,
            (λ a out. ap (λ t. t.bytes a) freed ∙ outside_kept a out),
            ap (λ t. (malloc granted size t).0) freed
                ∙ ap (λ r. r.0) (malloc-pop_hdr pushed (λ e. there (sym (lists b) ∙ e)))
                ∙ pop_again,
          ),
        )
