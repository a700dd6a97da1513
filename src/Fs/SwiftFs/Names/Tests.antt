-- ===== src/Fs/SwiftFs/Names/Tests.antt =====
-- Tests of the calls by path of src/kernel/fs/swiftfs2.c: a block with the entries "a", "b" and "c".
use swift_bsd.Prelude.{ℕ, ◌≡◌, refl, none, some, [], ◌∷◌, List, arith}
use swift_bsd.Fs.Pipe.{copy_in}
use swift_bsd.Fs.SwiftFs.Cache.{Data}
use swift_bsd.Fs.SwiftFs.Bytes.{get_le, put_le}
use swift_bsd.Fs.SwiftFs.Paths.{scan_block, same_name}
use swift_bsd.Fs.SwiftFs.Names.{last_slash}
use swift_bsd.Fs.SwiftFs.Names.Hides.{Passed, here, next, scan_block-hides}

abbrev entries : List ℕ
entries =
    2 ∷ 0 ∷ 0 ∷ 0 ∷ 12 ∷ 0 ∷ 1 ∷ 1 ∷ 97 ∷ 0 ∷ 0 ∷ 0 ∷ 3 ∷ 0 ∷ 0 ∷ 0 ∷ 12 ∷ 0 ∷ 1 ∷ 1 ∷ 98 ∷ 0 ∷ 0
    ∷ 0 ∷ 4 ∷ 0 ∷ 0 ∷ 0 ∷ 12 ∷ 0 ∷ 1 ∷ 1 ∷ 99 ∷ 0 ∷ 0 ∷ 0 ∷ []

block : Data
block = copy_in (λ k. 0) 0 entries

c_is_found : scan_block 10 block (99 ∷ []) 0 ≡ some 4
unfolding scan_block block copy_in get_le same_name
c_is_found = refl

c_is_behind_b : Passed block (99 ∷ []) 12 0
unfolding block copy_in get_le same_name
c_is_behind_b = next 0 (omega arith) refl here

scan_block-hides_example : scan_block 10 (put_le 4 block 12 0) (99 ∷ []) 0 ≡ none
scan_block-hides_example = scan_block-hides 10 block (99 ∷ []) 12 0 (omega arith) c_is_behind_b

parts : last_slash (97 ∷ 47 ∷ 98 ∷ 47 ∷ 99 ∷ []) ≡ some (97 ∷ 47 ∷ 98 ∷ [], 99 ∷ [])
unfolding last_slash
parts = refl
