-- ===== src/User/Malloc/Tests.antt =====
-- malloc.h from an empty heap that starts at 0x5000.
use swift_bsd.Prelude.{
  ◌⊎◌, ℕ, ◌+◌, ◌≡◌, ◌<◌, ◌≤◌, refl, arith, true, Bool, none, some, find_first, for_loop,
}
use swift_bsd.Fs.SwiftFs.Bytes.{get_le, put_le}
use swift_bsd.User.Malloc.{
  UserHeap, malloc_buckets, sizeof_hdr, bucket_sz, malloc_bucket, hdr_bucket, hdr_next, sbrk,
  split_page, malloc_add_page, new_hdr, push_hdr, pop_hdr, from_bucket, malloc, free,
}
use swift_bsd.User.Malloc.Capacity.{malloc_bucket-fits, free-malloc}

always : ℕ → ℕ → Bool
always cur new = true

empty_heap : UserHeap
empty_heap = record { bytes = λ k. 0; free_lists = λ b. 0; heap_break = 0x5000 }

-- bucket 5 has blocks of 512 bytes
bucket_of_300 : malloc_bucket 300 ≡ some 5
unfolding malloc_bucket find_first
bucket_of_300 = refl

malloc_bucket-fits_example :
    (16 < 300
      → 300 ≤ 4080
      → (b : ℕ) × ((malloc_bucket 300 ≡ some b)
          × (b < malloc_buckets)
          × (300 + sizeof_hdr ≤ bucket_sz b)
          × ((i : ℕ) → i < b → bucket_sz i < 300 + sizeof_hdr)))
    × (300 ≤ 16 → (malloc_bucket 300 ≡ some 0) × (bucket_sz 0 < 300 + sizeof_hdr))
    × (4080 < 300 → malloc_bucket 300 ≡ none)
malloc_bucket-fits_example = malloc_bucket-fits 300 (omega arith) (omega arith)

-- No bucket has room for the header and more than 4080 bytes, though 4096 is the limit.
bucket_of_4096 : malloc_bucket 4096 ≡ none
unfolding malloc_bucket find_first
bucket_of_4096 = refl

-- The memory of the last of the blocks of 16 bytes is behind the page.
first_of_16 : (malloc always 16 empty_heap).0 ≡ some 0x6000
unfolding always empty_heap malloc from_bucket malloc_bucket malloc_add_page sbrk split_page new_hdr
    push_hdr pop_hdr for_loop get_le put_le find_first
first_of_16 = refl

one_page : UserHeap
one_page = malloc_add_page always 5 empty_heap

head_of_5 : one_page.free_lists 5 ≡ 0x5E00
unfolding one_page always empty_heap malloc_add_page sbrk split_page new_hdr push_hdr for_loop
    get_le put_le
head_of_5 = refl

marked_5 : hdr_bucket one_page (one_page.free_lists 5) ≡ 5
unfolding one_page always empty_heap malloc_add_page sbrk split_page new_hdr push_hdr for_loop
    get_le put_le
marked_5 = refl

next_5 : hdr_next one_page (one_page.free_lists 5) ≡ 0x5C00
unfolding one_page always empty_heap malloc_add_page sbrk split_page new_hdr push_hdr for_loop
    get_le put_le
next_5 = refl

free-malloc_example :
    let head = one_page.free_lists 5 in
    ((malloc always 300 one_page).0 ≡ some (head + sizeof_hdr))
    × (let t = free (head + sizeof_hdr) (malloc always 300 one_page).1 in
        ((i : ℕ) → t.free_lists i ≡ one_page.free_lists i)
        × (hdr_next t head ≡ hdr_next one_page head)
        × ((a : ℕ) → (a < head) ⊎ (head + sizeof_hdr ≤ a) → t.bytes a ≡ one_page.bytes a)
        × ((malloc always 300 t).0 ≡ some (head + sizeof_hdr)))
free-malloc_example =
    free-malloc always 300 5 (omega arith) (omega arith) bucket_of_300 one_page
      (omega (arith, head_of_5)) marked_5 (omega (arith, next_5))
