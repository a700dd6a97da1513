-- ===== src/Fs/SwiftFs/Paths.antt =====
-- path_next and path_walk of src/kernel/fs/swiftfs2.c, with strncmp of src/kernel/string.c where they use it.
-- A string is the list of its bytes before the terminating zero. The blocks of a directory end at the latest
-- behind the last block that bmap_read maps, an entry is at least one byte long, and each step of the walk
-- takes a name off the path, so the fuels are enough.
pub mod Tokens
mod Tests
use swift_bsd.Prelude.{
  ℕ, zero, suc, ◌+◌, ◌-◌, ◌*◌, ◌/◌, ◌%◌, ◌^◌, bit_and, Bool, true, false, not, Option, none, some,
  List, [], ◌∷◌, ◌==◌, ◌&&◌, ◌||◌, ltb, leb, if◌then◌else◌, length,
}
use swift_bsd.Fs.SwiftFs.Cache.{Data, Cache, cache_get}
use swift_bsd.Fs.SwiftFs.State.{SwiftFs}
use swift_bsd.Fs.SwiftFs.Bytes.{get_le}
use swift_bsd.Fs.SwiftFs.Inodes.{Inode, mode, inode_read}
use swift_bsd.Fs.SwiftFs.Bmap.{Mapped, bmap_read}

-- '/'
abbrev pub slash : ℕ
slash = 47

unfoldable pub skip_slashes : List ℕ → List ℕ
skip_slashes [] = []
skip_slashes (c ∷ cs) = let rest = skip_slashes cs in if c == slash then rest else c ∷ cs

-- at most `n` bytes up to the next slash, and what follows
unfoldable pub split_name : ℕ → List ℕ → List ℕ × List ℕ
split_name zero cs = ([], cs)
split_name (suc n) [] = ([], [])
split_name (suc n) (c ∷ cs) =
    let rest = split_name n cs in if c == slash then ([], c ∷ cs) else (c ∷ rest.0, rest.1)

abbrev pub next_of : List ℕ → Option (List ℕ × List ℕ)
next_of [] = none
next_of (c ∷ cs) = some (split_name 254 (c ∷ cs))

-- the next name and what follows it; `none` for the null pointer, when there is no further name
unfoldable pub path_next : List ℕ → Option (List ℕ × List ℕ)
unfolding skip_slashes split_name
path_next path = next_of (skip_slashes path)

-- `strncmp(de->name, component, clen) == 0` for the bytes of a block from `at` on
unfoldable pub same_name : Data → ℕ → List ℕ → Bool
same_name bytes at [] = true
same_name bytes at (c ∷ cs) =
    let rest = same_name bytes (at + 1) cs in
    if bytes at == c then (if c == 0 then true else rest) else false

-- the entries of one block from `at` on: the inode of the one with the name
unfoldable pub scan_block : ℕ → Data → List ℕ → ℕ → Option ℕ
scan_block zero bytes name at = none
scan_block (suc fuel) bytes name at =
    let inode = get_le 4 bytes at in
    let rec_len = get_le 2 bytes (at + 4) in
    let rest = scan_block fuel bytes name (at + rec_len) in
    if leb 4096 at || inode == 0 || rec_len == 0
    then none
    else if bytes (at + 6) == length name % 256 && same_name bytes (at + 8) name
    then some inode
    else rest

abbrev pub or_block : Option ℕ → SwiftFs → Option ℕ × SwiftFs → Option ℕ × SwiftFs
or_block none fs rest = rest
or_block (some ino) fs rest = (some ino, fs)

-- the blocks of a directory from `bi` on
unfoldable pub scan_dir : ℕ → Inode → List ℕ → ℕ → SwiftFs → Option ℕ × SwiftFs
unfolding scan_block
scan_dir zero inode name bi fs = (none, fs)
scan_dir (suc fuel) inode name bi fs =
    let m = bmap_read inode bi false fs in
    let (i, cache) = cache_get m.block 0 m.fs.cache in
    let t : SwiftFs = record (m.fs) { cache = cache } in
    let rest = scan_dir fuel m.inode name (bi + 1) t in
    if m.block == 0
    then (none, m.fs)
    else or_block (scan_block 4096 (cache.entries i).bytes name 0) t rest

-- how many blocks a file can have, and one more round to see the end
abbrev pub dir_fuel : ℕ
dir_fuel = 12 + 1024 + 1

abbrev pub step_into :
    Option ℕ × SwiftFs
    → Option (List ℕ × List ℕ)
    → (ℕ → SwiftFs → Option ℕ × SwiftFs)
    → Option ℕ × SwiftFs
step_into (none, fs) next walk = (none, fs)
step_into (some ino, fs) none walk = (some ino, fs)
step_into (some ino, fs) (some (name, rest)) walk = walk ino fs

abbrev pub name_of : Option (List ℕ × List ℕ) → List ℕ
name_of none = []
name_of (some (name, rest)) = name

abbrev pub rest_of : Option (List ℕ × List ℕ) → List ℕ
rest_of none = []
rest_of (some (name, rest)) = rest

-- the loop of path_walk at inode `ino`, before the name is looked up; S_IFDIR is 0x4000
unfoldable pub walk : ℕ → ℕ → List ℕ → List ℕ → SwiftFs → Option ℕ × SwiftFs
unfolding scan_dir inode_read path_next
walk zero ino name rest fs = (none, fs)
walk (suc fuel) ino name rest fs =
    let (inode, t) = inode_read ino fs in
    let next = path_next rest in
    if bit_and (mode inode) 0x4000 == 0
    then (none, t)
    else step_into (scan_dir dir_fuel inode name 0 t) next
        (λ child u. walk fuel child (name_of next) (rest_of next) u)

abbrev pub walk_from : List ℕ → Option (List ℕ × List ℕ) → SwiftFs → Option ℕ × SwiftFs
walk_from path none fs = (some 1, fs)
walk_from path (some (name, rest)) fs = walk (length path) 1 name rest fs

-- the inode of a path from the root, inode 1; `none` is -1
unfoldable pub path_walk : List ℕ → SwiftFs → Option ℕ × SwiftFs
unfolding walk path_next
path_walk path fs = walk_from path (path_next path) fs
