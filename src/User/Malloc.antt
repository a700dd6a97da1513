-- ===== src/User/Malloc.antt =====
-- src/userland/malloc.h, the allocator of the user programs, with sbrk of src/userland/syscall.h. Memory is bytes:
-- the fields of `struct malloc_hdr` are at offsets 0, 2 and 8 of its 16 bytes. `granted cur new` says whether SC_BRK
-- moves the break from `cur` to `new`. `none` is the null pointer.
mod Capacity
mod Tests
use swift_bsd.Prelude.{
  ℕ, ◌+◌, ◌-◌, ◌*◌, ◌/◌, ◌%◌, ◌^◌, Bool, true, false, not, Option, none, some, ◌==◌, leb, ltb,
  if◌then◌else◌, update, for_loop, find_first, page_up, add64,
}
use swift_bsd.Fs.SwiftFs.Bytes.{get_le, put_le}
use swift_bsd.Fs.SwiftFs.Cache.{Data}

pub record UserHeap : Type 0 where
  pub bytes : Data
  pub free_lists : ℕ → ℕ
  pub heap_break : ℕ

abbrev pub malloc_buckets : ℕ
malloc_buckets = 9

abbrev pub malloc_max : ℕ
malloc_max = 4096

-- `sizeof(struct malloc_hdr)`
abbrev pub sizeof_hdr : ℕ
sizeof_hdr = 16

-- 16, 32, ..., 4096
abbrev pub bucket_sz : ℕ → ℕ
bucket_sz b = 16 * 2 ^ b

abbrev pub hdr_magic : UserHeap → ℕ → ℕ
hdr_magic s h = get_le 2 s.bytes h

abbrev pub hdr_bucket : UserHeap → ℕ → ℕ
hdr_bucket s h = get_le 2 s.bytes (h + 2)

abbrev pub hdr_next : UserHeap → ℕ → ℕ
hdr_next s h = get_le 8 s.bytes (h + 8)

unfoldable pub malloc_bucket : ℕ → Option ℕ
malloc_bucket size =
    if leb size 16
    then some 0
    else find_first malloc_buckets 0 (λ i. leb (add64 size sizeof_hdr) (bucket_sz i))

-- `h->next = free_lists[b]; free_lists[b] = h;`
unfoldable pub push_hdr : ℕ → ℕ → UserHeap → UserHeap
push_hdr b h s = record s {
  bytes = put_le 8 s.bytes (h + 8) (s.free_lists b);
  free_lists = update s.free_lists b h;
}

-- a new header, which goes on its list
unfoldable pub new_hdr : ℕ → ℕ → UserHeap → UserHeap
new_hdr b h s = push_hdr b h (record s { bytes = put_le 2 (put_le 2 s.bytes h 0xBEEF) (h + 2) b })

-- the head of list `b` is taken off
unfoldable pub pop_hdr : ℕ → UserHeap → Option ℕ × UserHeap
pop_hdr b s =
    let h = s.free_lists b in
    if h == 0 then (none, s) else (
      some (h + sizeof_hdr),
      record s {
        free_lists = update s.free_lists b (hdr_next s h);
        bytes = put_le 2 s.bytes h 0xBEEF;
      },
    )

unfoldable pub free : ℕ → UserHeap → UserHeap
free ptr s =
    let h = ptr - sizeof_hdr in
    let b = hdr_bucket s h in
    if ptr == 0
    then s
    else if not (hdr_magic s h == 0xBEEF)
    then s
    else if leb malloc_buckets b
    then s
    else push_hdr b h s

module _ (granted : ℕ → ℕ → Bool) where
  -- the old break, or `none` for -1
  unfoldable pub sbrk : ℕ → UserHeap → Option ℕ × UserHeap
  sbrk increment s =
      if increment == 0
      then (some s.heap_break, s)
      else if granted s.heap_break (s.heap_break + increment)
      then (some s.heap_break, record s { heap_break = s.heap_break + increment })
      else (none, s)

  unfoldable pub split_page : ℕ → ℕ → Option ℕ × UserHeap → UserHeap
  split_page b addr (none, s) = s
  split_page b addr (some cur, s) =
      for_loop (λ i t. new_hdr b (addr + i * bucket_sz b) t) 0 (4096 / bucket_sz b) s

  -- The end of the page is above the break, which is where the page starts.
  unfoldable pub malloc_add_page : ℕ → UserHeap → UserHeap
  malloc_add_page b s =
      let addr = s.heap_break in
      let page_end = page_up (addr + 4096 / bucket_sz b * bucket_sz b) in
      split_page b addr (sbrk (page_end - addr) s)

  abbrev pub whole_pages : Option ℕ × UserHeap → ℕ → Option ℕ × UserHeap
  whole_pages (none, s) cur = (none, s)
  whole_pages (some old, s) cur = (some cur, s)

  unfoldable pub from_bucket : Option ℕ → UserHeap → Option ℕ × UserHeap
  from_bucket none s = (none, s)
  from_bucket (some b) s = pop_hdr b (if s.free_lists b == 0 then malloc_add_page b s else s)

  unfoldable pub malloc : ℕ → UserHeap → Option ℕ × UserHeap
  malloc size s =
      if size == 0
      then (none, s)
      else if ltb malloc_max size
      then whole_pages (sbrk (page_up size) s) s.heap_break
      else from_bucket (malloc_bucket size) s

  abbrev pub zeroed_at : ℕ → Option ℕ × UserHeap → Option ℕ × UserHeap
  zeroed_at total (none, s) = (none, s)
  zeroed_at total (some p, s) = (
    some p,
    record s {
      bytes = λ a. if leb p a then (if ltb a (p + total) then 0 else s.bytes a) else s.bytes a;
    },
  )

  -- `nmemb * size` wraps
  unfoldable pub calloc : ℕ → ℕ → UserHeap → Option ℕ × UserHeap
  calloc nmemb size s = let total = nmemb * size % 2 ^ 64 in zeroed_at total (malloc total s)

  -- the bytes that the old block holds, by the bucket of its header
  abbrev pub old_size : UserHeap → ℕ → ℕ
  old_size s ptr =
      let b = hdr_bucket s (ptr - sizeof_hdr) in
      if ltb b malloc_buckets then bucket_sz b - sizeof_hdr else 0

  unfoldable pub moved : ℕ → ℕ → Option ℕ × UserHeap → Option ℕ × UserHeap
  moved ptr copy (none, s) = (none, s)
  moved ptr copy (some p, s) = (
    some p,
    free ptr (
        for_loop (λ i t. record t { bytes = update t.bytes (p + i) (t.bytes (ptr + i)) }) 0 copy s),
  )

  unfoldable pub realloc : ℕ → ℕ → UserHeap → Option ℕ × UserHeap
  realloc ptr new_size s =
      let old = old_size s ptr in
      if ptr == 0
      then malloc new_size s
      else if new_size == 0
      then (none, free ptr s)
      else moved ptr (if ltb old new_size then old else new_size) (malloc new_size s)
