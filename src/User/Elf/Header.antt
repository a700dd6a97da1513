-- ===== src/User/Elf/Header.antt =====
-- What elf64_load of src/kernel/elf.c comes to, and what it keeps.
use swift_bsd.Prelude.{
  sym, arith, ◌<◌, contrary, test_equal, equal_test, ℕ, ◌≡◌, refl, ◌∙◌, inl, inr, Bool, true, false,
  Option, none, some, ◌&&◌, Bool-cases,
}
use swift_bsd.Fs.SwiftFs.Bytes.{get_le}
use swift_bsd.Fs.SwiftFs.Cache.{Data}
use swift_bsd.Mm.Pmm.Inv.{IsValid}
use swift_bsd.Mm.Vmm.{Vmm}
use swift_bsd.Mm.Vmm.Clone.{each_entry}
use swift_bsd.User.Elf.{is_accepted, e_entry, e_phnum, load_segment, map_stack, entered, elf64_load}
use swift_bsd.User.Elf.Keeps.{
  Keeps, Missing, Goes, and_then-Goes, each_entry-Goes, load_segment-Goes, map_stack-Goes,
}

-- The header of a 64-bit ELF program for x86-64, byte by byte: the magic number, class 2, type 2 and machine 62.
abbrev pub IsElf : Data → Type 0
IsElf image =
    (image 0 ≡ 0x7F)
    × (image 1 ≡ 0x45)
    × (image 2 ≡ 0x4C)
    × (image 3 ≡ 0x46)
    × (image 4 ≡ 2)
    × (image 16 ≡ 2)
    × (image 17 ≡ 0)
    × (image 18 ≡ 62)
    × (image 19 ≡ 0)

four_hold :
    (a b c d : Bool) → (a && b && c && d) ≡ true → (a ≡ true) × (b ≡ true) × (c ≡ true) × (d ≡ true)
four_hold a b c d h = ground (arith, h)

four_together :
    (a b c d : Bool) → a ≡ true → b ≡ true → c ≡ true → d ≡ true → (a && b && c && d) ≡ true
four_together a b c d ha hb hc hd = ground (arith, ha, hb, hc, hd)

module _ (image : Data) (bytes : (k : ℕ) → image k < 256) where
  is_accepted-IsElf : is_accepted image ≡ true → IsElf image
  unfolding is_accepted get_le
  is_accepted-IsElf h =
      let (magic, class, kind, machine) = four_hold _ _ _ _ h in
      let m = test_equal (get_le 4 image 0) 0x464C457F magic in
      let c = test_equal (image 4) 2 class in
      let k = test_equal (get_le 2 image 16) 2 kind in
      let x = test_equal (get_le 2 image 18) 62 machine in
      (
        omega (arith, m, bytes 0, bytes 1, bytes 2, bytes 3),
        omega (arith, m, bytes 0, bytes 1, bytes 2, bytes 3),
        omega (arith, m, bytes 0, bytes 1, bytes 2, bytes 3),
        omega (arith, m, bytes 0, bytes 1, bytes 2, bytes 3),
        c,
        omega (arith, k, bytes 16, bytes 17),
        omega (arith, k, bytes 16, bytes 17),
        omega (arith, x, bytes 18, bytes 19),
        omega (arith, x, bytes 18, bytes 19),
      )

  IsElf-is_accepted : IsElf image → is_accepted image ≡ true
  unfolding is_accepted get_le
  IsElf-is_accepted (b0, b1, b2, b3, b4, b16, b17, b18, b19) =
      four_together _ _ _ _ (equal_test _ _ (omega (arith, b0, b1, b2, b3))) (equal_test _ _ b4)
        (equal_test _ _ (omega (arith, b16, b17))) (equal_test _ _ (omega (arith, b18, b19)))

-- The outcomes of elf64_load: an image without the header is refused and nothing is changed; with it, page_alloc has
-- no page when one is asked for, or the entry point is given.
pub data Outcome (image : Data) (s : Vmm) : Option ℕ × Vmm → Type 0 where
  refused : ¬ IsElf image → Outcome image s (none, s)
  out_of_memory : (t : Vmm) → IsElf image → Keeps s t → Missing s t → Outcome image s (none, t)
  loaded : (t : Vmm) → IsElf image → Keeps s t → Outcome image s (some (e_entry image), t)

entered-Outcome :
    (image : Data) (s : Vmm) (r : Bool × Vmm)
    → IsElf image
    → Goes s r
    → Outcome image s (entered image r)
entered-Outcome image s (true, t) accepted g = loaded t accepted g.keeps
entered-Outcome image s (false, t) accepted g = out_of_memory t accepted g.keeps (g.missing refl)

-- With a valid page allocator, elf64_load returns -1 and changes nothing for an image whose bytes are not those of
-- the header of a 64-bit ELF program for x86-64. For any other it returns the entry point, or it returns -1, and
-- then a call of page_alloc has returned 0 and the page allocator is as that call left it. In both cases the page
-- allocator is valid, no page is given back and the tables in use are the same.
pub elf64_load-Outcome :
    (image : Data) (s : Vmm)
    → ((k : ℕ) → image k < 256)
    → IsValid s.pmm
    → Outcome image s (elf64_load image s)
unfolding elf64_load
elf64_load-Outcome image s bytes valid =
    let start : Keeps s s = record { valid = valid; taken = λ q was. was; cr3 = refl } in
    elim (Bool-cases (is_accepted image)) [
      | inr bad ↦ rw bad (refused (λ elf. contrary (sym (IsElf-is_accepted image bytes elf) ∙ bad)))
      | inl good ↦ rw good (
          entered-Outcome image s _ (is_accepted-IsElf image bytes good) (
            and_then-Goes s (each_entry (e_phnum image) 0 (load_segment image) s) map_stack
              (each_entry-Goes s (e_phnum image) 0 (load_segment image) s
                (λ j t m. load_segment-Goes s image j t m) start)
              (λ t m. map_stack-Goes s t m)))
    ]
