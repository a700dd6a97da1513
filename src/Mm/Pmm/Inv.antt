-- ===== src/Mm/Pmm/Inv.antt =====
-- The invariant of pmm.c: the counter is exact, and the search stays inside the bitmap.
use swift_bsd.Prelude.{ℕ, suc, zero, ◌≤◌, ◌<◌, ◌≡◌, arith, true, false}
use swift_bsd.Bitmap.{Bitmap, IsBytes, bit_clear, bit_set-IsBytes, bit_clear-IsBytes, bit_test}
use swift_bsd.Bitmap.Count.{clear_bits, clear_bits-bit_set, clear_bits-bit_clear}
use swift_bsd.Mm.Pmm.{Pmm, max_pages, take_page, give_page}

pub record IsValid (s : Pmm) : Type 0 where
  pub bytes : IsBytes s.bitmap
  pub last_in : s.last_phys_page ≤ max_pages
  pub counted : s.free_page_count ≡ clear_bits max_pages s.bitmap

pub clear_bits-le : (n : ℕ) (bm : Bitmap) → clear_bits n bm ≤ n
unfolding clear_bits
clear_bits-le zero bm = omega arith
clear_bits-le (suc n) bm = ground (arith, clear_bits-le n bm)

module _ {s : Pmm} (p : ℕ) (v : IsValid s) (h : p < max_pages) where
  pub take_page-IsValid : bit_test s.bitmap p ≡ false → IsValid (take_page p s)
  unfolding take_page
  take_page-IsValid free = record {
    bytes = bit_set-IsBytes s.bitmap p v.bytes;
    last_in = v.last_in;
    counted = omega (
      arith,
      v.counted,
      clear_bits-le max_pages s.bitmap,
      clear_bits-bit_set s.bitmap p v.bytes max_pages h free,
    );
  }

  pub give_page-IsValid : bit_test s.bitmap p ≡ true → IsValid (give_page p s)
  unfolding give_page
  give_page-IsValid taken = record {
    bytes = bit_clear-IsBytes s.bitmap p v.bytes;
    last_in = v.last_in;
    counted = omega (
      arith,
      v.counted,
      clear_bits-le max_pages (bit_clear s.bitmap p),
      clear_bits-bit_clear s.bitmap p v.bytes max_pages h taken,
    );
  }
