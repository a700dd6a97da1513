-- ===== src/User/Elf/Tests.antt =====
-- elf.c on an image without program headers.
use swift_bsd.Prelude.{arith, ◌%◌, ◌<◌, ℕ, ◌≡◌, refl, true, false, List, [], ◌∷◌}
use swift_bsd.Fs.Pipe.{copy_in}
use swift_bsd.Fs.SwiftFs.Bytes.{get_le}
use swift_bsd.Fs.SwiftFs.Cache.{Data}
use swift_bsd.Mm.Vmm.Tests.{machine, machine-IsValid}
use swift_bsd.User.Elf.{is_accepted, e_entry, elf64_load, vm_flags}
use swift_bsd.User.Elf.Header.{Outcome, elf64_load-Outcome}

header : List ℕ
header =
    0x7F ∷ 0x45 ∷ 0x4C ∷ 0x46 ∷ 2 ∷ 1 ∷ 1 ∷ 0 ∷ 0 ∷ 0 ∷ 0 ∷ 0 ∷ 0 ∷ 0 ∷ 0 ∷ 0 ∷ 2 ∷ 0 ∷ 62 ∷ 0 ∷ 1
    ∷ 0 ∷ 0 ∷ 0 ∷ 0 ∷ 0x10 ∷ []

image : Data
image k = copy_in (λ k. 0) 0 header k % 256

image_bytes : (k : ℕ) → image k < 256
unfolding image
image_bytes k = omega arith

image-is_accepted : is_accepted image ≡ true
unfolding image header copy_in is_accepted get_le
image-is_accepted = refl

image_entry : e_entry image ≡ 0x1000
unfolding image header copy_in get_le
image_entry = refl

zeros_refused : is_accepted (λ k. 0) ≡ false
unfolding is_accepted get_le
zeros_refused = refl

-- PG_NX is lost.
data_segment : vm_flags 6 ≡ 7
data_segment = refl

elf64_load-Outcome_example : Outcome image machine (elf64_load image machine)
elf64_load-Outcome_example = elf64_load-Outcome image machine image_bytes machine-IsValid
