-- ===== src/Fs/SwiftFs/Names/Unlink.antt =====
-- swiftfs2_unlink and swiftfs2_ls of src/kernel/fs/swiftfs2.c. The scan for the name does not look at an
-- entry's length, and does not end on one of length 0.
use swift_bsd.Prelude.{
  ℕ, zero, suc, ◌+◌, ◌%◌, bit_and, false, not, Option, none, some, List, [], ◌∷◌, ◌++◌, ◌==◌, ◌&&◌,
  ◌||◌, leb, if◌then◌else◌, length,
}
use swift_bsd.Fs.Pipe.{copy_out}
use swift_bsd.Fs.SwiftFs.Cache.{Data}
use swift_bsd.Fs.SwiftFs.State.{SwiftFs}
use swift_bsd.Fs.SwiftFs.Bytes.{get_le, put_le}
use swift_bsd.Fs.SwiftFs.Inodes.{Inode, mode, size, inode_read, inode_free}
use swift_bsd.Fs.SwiftFs.Bmap.{bmap_read}
use swift_bsd.Fs.SwiftFs.Paths.{same_name, path_walk, dir_fuel}
use swift_bsd.Fs.SwiftFs.Dirs.{
  Hunt, at, absent, endless, dirent_inode, rec_len, open_block, poke, mark,
}
use swift_bsd.Fs.SwiftFs.Names.{parent_of, drop_blocks}

-- Each step that is not the last goes on by the length of the entry; one of length 0 is looked at again.
unfoldable pub hunt : ℕ → Data → List ℕ → ℕ → Hunt
unfolding get_le same_name
hunt zero bytes name p = endless
hunt (suc fuel) bytes name p =
    let rest = hunt fuel bytes name (p + rec_len bytes p) in
    if leb 4096 p || dirent_inode bytes p == 0
    then absent
    else if bytes (p + 6) == length name % 256 && same_name bytes (p + 8) name
    then at p
    else rest

-- what the search through the blocks comes to
pub data Removal : Type 0 where
  removed : Removal
  not_found : Removal
  stuck : Removal

abbrev removal_at : ℕ → ℕ → Hunt → SwiftFs → Removal × SwiftFs → Removal × SwiftFs
unfolding poke mark put_le
removal_at block i (at p) fs rest = (removed, mark block (poke i (λ bytes. put_le 4 bytes p 0) fs))
removal_at block i absent fs rest = rest
removal_at block i endless fs rest = (stuck, fs)

unfoldable pub remove_loop : ℕ → Inode → List ℕ → ℕ → SwiftFs → Removal × SwiftFs
unfolding open_block hunt poke mark put_le
remove_loop zero inode name bi fs = (not_found, fs)
remove_loop (suc fuel) inode name bi fs =
    let m = bmap_read inode bi false fs in
    let (i, t) = open_block m.block m.fs in
    let rest = remove_loop fuel m.inode name (bi + 1) t in
    if m.block == 0
    then (not_found, m.fs)
    else removal_at m.block i (hunt 4097 (t.cache.entries i).bytes name 0) t rest

abbrev drop_target : ℕ → Inode × SwiftFs → SwiftFs
drop_target ino (inode, fs) = inode_free ino (drop_blocks (inode, fs)).1

-- the blocks and the inode are given back once the entry is gone
abbrev finish : ℕ → Removal × SwiftFs → Removal × SwiftFs
finish ino (removed, fs) = (removed, drop_target ino (inode_read ino fs))
finish ino (not_found, fs) = (not_found, fs)
finish ino (stuck, fs) = (stuck, fs)

unfoldable pub remove_from : List ℕ → ℕ → Inode × SwiftFs → Removal × SwiftFs
unfolding remove_loop inode_read inode_free drop_blocks
remove_from name ino (inode, fs) = finish ino (remove_loop dir_fuel inode name 0 fs)

abbrev unlink_target : ℕ → List ℕ → Option ℕ × SwiftFs → Removal × SwiftFs
unlink_target parent name (none, fs) = (not_found, fs)
unlink_target parent name (some ino, fs) =
    remove_from name ino (inode_read parent (inode_read ino fs).1)

abbrev unlink_in : List ℕ → Option (ℕ × List ℕ) × SwiftFs → Removal × SwiftFs
unlink_in path (none, fs) = (not_found, fs)
unlink_in path (some (parent, name), fs) = unlink_target parent name (path_walk path fs)

-- `removed` is 0 and `not_found` is -1; with `stuck` the call does not return
unfoldable pub swiftfs2_unlink : List ℕ → SwiftFs → Removal × SwiftFs
unfolding parent_of path_walk inode_read remove_from
swiftfs2_unlink path fs = unlink_in path (parent_of path fs)

-- a call of the callback of swiftfs2_ls: the name, the mode and the size
pub record Listed : Type 0 where
  pub name : List ℕ
  pub mode : ℕ
  pub size : ℕ

abbrev listed : List ℕ → Inode × SwiftFs → Listed × SwiftFs
listed name (inode, fs) = (record { name = name; mode = mode inode; size = size inode }, fs)

-- the entries behind cache entry `i`, which the read of an inode may replace meanwhile
unfoldable pub ls_block : ℕ → ℕ → ℕ → SwiftFs → List Listed × SwiftFs
unfolding inode_read copy_out get_le
ls_block zero i p fs = ([], fs)
ls_block (suc fuel) i p fs =
    let bytes : Data = (fs.cache.entries i).bytes in
    let (entry, t) =
      listed (copy_out bytes (p + 8) (bytes (p + 6))) (inode_read (dirent_inode bytes p) fs) in
    let rest = ls_block fuel i (p + rec_len (t.cache.entries i).bytes p) t in
    if leb 4096 p || dirent_inode bytes p == 0 || rec_len bytes p == 0
    then ([], fs)
    else (entry ∷ rest.0, rest.1)

unfoldable pub ls_loop : ℕ → Inode → ℕ → SwiftFs → List Listed × SwiftFs
unfolding ls_block open_block
ls_loop zero inode bi fs = ([], fs)
ls_loop (suc fuel) inode bi fs =
    let m = bmap_read inode bi false fs in
    let (i, t) = open_block m.block m.fs in
    let here = ls_block 4097 i 0 t in
    let rest = ls_loop fuel m.inode (bi + 1) here.1 in
    if m.block == 0 then ([], m.fs) else (here.0 ++ rest.0, rest.1)

abbrev found_list : List Listed × SwiftFs → Option (List Listed) × SwiftFs
found_list (entries, fs) = (some entries, fs)

unfoldable pub ls_dir : Inode × SwiftFs → Option (List Listed) × SwiftFs
unfolding ls_loop
ls_dir (inode, fs) =
    if bit_and (mode inode) 0x4000 == 0
    then (none, fs)
    else found_list (ls_loop dir_fuel inode 0 fs)

abbrev ls_found : Option ℕ × SwiftFs → Option (List Listed) × SwiftFs
ls_found (none, fs) = (none, fs)
ls_found (some ino, fs) = ls_dir (inode_read ino fs)

unfoldable pub swiftfs2_ls : List ℕ → SwiftFs → Option (List Listed) × SwiftFs
unfolding path_walk inode_read ls_dir
swiftfs2_ls path fs = if not fs.mounted then (none, fs) else ls_found (path_walk path fs)
