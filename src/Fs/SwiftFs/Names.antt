-- ===== src/Fs/SwiftFs/Names.antt =====
-- The calls of src/kernel/fs/swiftfs2.c that take a path: swiftfs2_open, swiftfs2_mkdir, swiftfs2_unlink and
-- swiftfs2_ls. A path is the list of its bytes. `none` is -1. The buffers for a name hold 255 bytes: of a
-- longer name the first 255 are taken, where the source would read on behind its buffer.
pub mod Unlink
pub mod Hides
mod Tests
use swift_bsd.Prelude.{
  ℕ, zero, suc, ◌+◌, ◌*◌, ◌%◌, bit_and, bit_or, Bool, true, false, not, Option, none, some, List,
  [], ◌∷◌, ◌==◌, ◌&&◌, ◌||◌, leb, if◌then◌else◌, length, take, for_loop,
}
use swift_bsd.Fs.Pipe.{copy_out}
use swift_bsd.Fs.SwiftFs.Cache.{Data}
use swift_bsd.Fs.SwiftFs.State.{SwiftFs}
use swift_bsd.Fs.SwiftFs.Bytes.{put_le}
use swift_bsd.Fs.SwiftFs.Blocks.{block_free}
use swift_bsd.Fs.SwiftFs.Inodes.{
  Inode, mode, size, direct, direct_at, indirect, double_indirect, inode_read, inode_write,
  inode_alloc, inode_free,
}
use swift_bsd.Fs.SwiftFs.Bmap.{Mapped, bmap_read, direct_count}
use swift_bsd.Fs.SwiftFs.Files.{fd_alloc, set_fd}
use swift_bsd.Fs.SwiftFs.Paths.{slash, same_name, path_walk, dir_fuel}
use swift_bsd.Fs.SwiftFs.Dirs.{dirent_inode, rec_len, open_block, poke, mark, dir_add_entry}

abbrev or_here : ℕ → List ℕ → Option (List ℕ × List ℕ) → Option (List ℕ × List ℕ)
or_here c cs (some (front, name)) = some (c ∷ front, name)
or_here c cs none = if c == slash then some ([], cs) else none

-- what stands before and behind the last slash
unfoldable pub last_slash : List ℕ → Option (List ℕ × List ℕ)
last_slash [] = none
last_slash (c ∷ cs) = or_here c cs (last_slash cs)

abbrev named : List ℕ → Option ℕ × SwiftFs → Option (ℕ × List ℕ) × SwiftFs
named name (none, fs) = (none, fs)
named name (some ino, fs) = (some (ino, take 255 name), fs)

unfoldable pub parent_at :
    List ℕ → Option (List ℕ × List ℕ) → SwiftFs → Option (ℕ × List ℕ) × SwiftFs
unfolding path_walk
parent_at path none fs = (some (1, take 255 path), fs)
parent_at path (some (front, name)) fs = named name (path_walk front fs)

-- the inode of the directory that a path stands in, and the last name of the path
unfoldable pub parent_of : List ℕ → SwiftFs → Option (ℕ × List ℕ) × SwiftFs
unfolding parent_at last_slash
parent_of path fs = parent_at path (last_slash (take 509 path)) fs

-- the free of one direct block
unfoldable pub drop_direct : ℕ → Inode × SwiftFs → Inode × SwiftFs
unfolding put_le
drop_direct i (inode, fs) =
    if direct inode i == 0
    then (inode, fs)
    else (put_le 4 inode (direct_at i) 0, block_free (direct inode i) fs)

unfoldable pub drop_indirect : Inode × SwiftFs → Inode × SwiftFs
unfolding put_le
drop_indirect (inode, fs) =
    if indirect inode == 0
    then (inode, fs)
    else (put_le 4 inode 78 0, block_free (indirect inode) fs)

unfoldable pub drop_double : Inode × SwiftFs → Inode × SwiftFs
unfolding put_le
drop_double (inode, fs) =
    if double_indirect inode == 0
    then (inode, fs)
    else (put_le 4 inode 82 0, block_free (double_indirect inode) fs)

-- the blocks that the inode names are given back; those that its indirect block names are not
unfoldable pub drop_blocks : Inode × SwiftFs → Inode × SwiftFs
unfolding drop_direct drop_indirect drop_double
drop_blocks r = drop_double (drop_indirect (for_loop drop_direct 0 direct_count r))

abbrev emptied : ℕ → Inode × SwiftFs → SwiftFs
emptied ino (inode, fs) = inode_write ino (put_le 4 (put_le 8 inode 6 0) 26 0) fs

-- O_TRUNC
unfoldable pub truncate : ℕ → Inode → SwiftFs → SwiftFs
unfolding drop_blocks inode_write
truncate ino inode fs = emptied ino (drop_blocks (inode, fs))

abbrev or_free : ℕ → Bool × SwiftFs → Option ℕ × SwiftFs
or_free ino (true, fs) = (some ino, fs)
or_free ino (false, fs) = (none, inode_free ino fs)

unfoldable pub add_or_free : ℕ → List ℕ → ℕ → ℕ × SwiftFs → Option ℕ × SwiftFs
unfolding dir_add_entry inode_free
add_or_free parent name file_type (ino, fs) =
    if ino == 0 then (none, fs) else or_free ino (dir_add_entry parent name ino file_type fs)

abbrev create_in : Option (ℕ × List ℕ) × SwiftFs → Option ℕ × SwiftFs
create_in (none, fs) = (none, fs)
create_in (some (parent, name), fs) = add_or_free parent name 1 (inode_alloc 0x81A4 fs)

-- a new file; S_IFREG with mode 0644
unfoldable pub create_file : List ℕ → SwiftFs → Option ℕ × SwiftFs
unfolding parent_of inode_alloc add_or_free
create_file path fs = create_in (parent_of path fs)

abbrev or_create : List ℕ → ℕ → Option ℕ × SwiftFs → Option ℕ × SwiftFs
or_create path flags (some ino, fs) = (some ino, fs)
or_create path flags (none, fs) =
    if bit_and flags 0x100 == 0 then (none, fs) else create_file path fs

abbrev take_fd : ℕ → ℕ → Option ℕ → SwiftFs → Option ℕ × SwiftFs
take_fd ino flags none fs = (none, fs)
take_fd ino flags (some fd) fs =
    (some fd, set_fd fd (record { inode = ino; pos = 0; flags = flags; dirty = false }) fs)

-- the check of the write permission, the truncation and the descriptor
unfoldable pub open_read : ℕ → ℕ → Inode × SwiftFs → Option ℕ × SwiftFs
unfolding truncate fd_alloc
open_read ino flags (inode, fs) =
    let t = if bit_and flags 0x200 == 0 then fs else truncate ino inode fs in
    if not (bit_and flags 3 == 0) && bit_and (mode inode) 128 == 0
    then (none, fs)
    else take_fd ino flags (fd_alloc t) t

abbrev open_found : ℕ → Option ℕ × SwiftFs → Option ℕ × SwiftFs
open_found flags (none, fs) = (none, fs)
open_found flags (some ino, fs) = open_read ino flags (inode_read ino fs)

unfoldable pub swiftfs2_open : List ℕ → ℕ → SwiftFs → Option ℕ × SwiftFs
unfolding path_walk create_file inode_read open_read
swiftfs2_open path flags fs =
    if not fs.mounted
    then (none, fs)
    else open_found flags (or_create path flags (path_walk path fs))

abbrev link_in : ℕ → List ℕ → ℕ → Bool × SwiftFs → Option ℕ × SwiftFs
link_in parent name ino (false, fs) = (none, inode_free ino fs)
link_in parent name ino (true, fs) = add_or_free parent name 2 (ino, fs)

abbrev dot_dot : ℕ → ℕ → Bool × SwiftFs → Bool × SwiftFs
dot_dot ino parent (false, fs) = (false, fs)
dot_dot ino parent (true, fs) = dir_add_entry ino (46 ∷ 46 ∷ []) parent 2 fs

-- "." and "..", and the entry in the parent
unfoldable pub make_dir : ℕ → List ℕ → ℕ × SwiftFs → Option ℕ × SwiftFs
unfolding dir_add_entry add_or_free inode_free
make_dir parent name (ino, fs) =
    if ino == 0
    then (none, fs)
    else link_in parent name ino (dot_dot ino parent (dir_add_entry ino (46 ∷ []) ino 2 fs))

abbrev mkdir_in : ℕ → Option (ℕ × List ℕ) × SwiftFs → Option ℕ × SwiftFs
mkdir_in dir_mode (none, fs) = (none, fs)
mkdir_in dir_mode (some (parent, name), fs) =
    make_dir parent name (inode_alloc (0x4000 + dir_mode % 512) fs)

-- `some` is 0
unfoldable pub swiftfs2_mkdir : List ℕ → ℕ → SwiftFs → Option ℕ × SwiftFs
unfolding parent_of inode_alloc make_dir
swiftfs2_mkdir path dir_mode fs =
    if not fs.mounted then (none, fs) else mkdir_in dir_mode (parent_of path fs)
