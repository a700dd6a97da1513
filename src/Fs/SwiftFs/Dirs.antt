-- ===== src/Fs/SwiftFs/Dirs.antt =====
-- dir_add_entry of src/kernel/fs/swiftfs2.c. A pointer that cache_get returns is the index of the cache entry,
-- and a write through it goes to that entry, whatever it holds by then. A name is the list of its bytes, so
-- its length is what strlen gives.
pub mod Total
mod Tests
use swift_bsd.Prelude.{
  ℕ, zero, suc, ◌+◌, ◌-◌, ◌*◌, ◌/◌, ◌%◌, ◌^◌, Bool, true, false, not, Option, none, some, List,
  ◌==◌, ◌&&◌, ◌||◌, ltb, leb, if◌then◌else◌, update, length, add32, add64,
}
use swift_bsd.Fs.Pipe.{copy_in}
use swift_bsd.Fs.SwiftFs.Cache.{Data, Cache, cache_get, cache_mark_dirty, set_entry}
use swift_bsd.Fs.SwiftFs.State.{SwiftFs}
use swift_bsd.Fs.SwiftFs.Bytes.{get_le, put_le}
use swift_bsd.Fs.SwiftFs.Blocks.{block_alloc}
use swift_bsd.Fs.SwiftFs.Inodes.{
  Inode, direct_at, indirect, size, block_count, zeros, inode_read, inode_write,
}
use swift_bsd.Fs.SwiftFs.Bmap.{Mapped, bmap_read, direct_count}
use swift_bsd.Fs.SwiftFs.Paths.{dir_fuel}

-- `sizeof(swiftfs2_dirent_t)`
abbrev pub sizeof_dirent : ℕ
sizeof_dirent = 8

abbrev pub dirent_inode : Data → ℕ → ℕ
dirent_inode bytes at = get_le 4 bytes at

abbrev pub rec_len : Data → ℕ → ℕ
rec_len bytes at = get_le 2 bytes (at + 4)

-- the length of an entry with a name of `nlen` bytes, on 16 bits
abbrev pub reclen : ℕ → ℕ
reclen nlen = ((sizeof_dirent + nlen) % 2 ^ 16 + 3) / 4 * 4 % 2 ^ 16

-- the inode, the length of the name, the type and the name of an entry
unfoldable pub put_entry : ℕ → ℕ → List ℕ → ℕ → Data → Data
unfolding put_le copy_in
put_entry child file_type name at bytes =
    let head = put_le 4 bytes at child in
    let typed = update (update head (at + 6) (length name % 256)) (at + 7) file_type in
    copy_in typed (at + 8) name

-- a free entry that takes the rest of a block
unfoldable pub put_free : ℕ → ℕ → Data → Data
unfolding put_le
put_free rest at bytes = put_le 2 (put_le 4 bytes at 0) (at + 4) rest

-- `rem` of a new block, on 16 bits
abbrev pub remainder : ℕ → ℕ
remainder len = (4096 + 2 ^ 16 - len) % 2 ^ 16

-- the first entry of a new block
unfoldable pub first_entry : ℕ → ℕ → List ℕ → Data → Data
unfolding put_entry put_free put_le
first_entry child file_type name bytes =
    let len = reclen (length name) in
    let entry = put_entry child file_type name 0 bytes in
    if leb sizeof_dirent (remainder len)
    then put_free (remainder len) len (put_le 2 entry 4 len)
    else put_le 2 entry 4 4096

-- the entry that is written over a free one at `at`
unfoldable pub reuse_entry : ℕ → ℕ → List ℕ → ℕ → Data → Data
unfolding put_entry put_free put_le
reuse_entry child file_type name at bytes =
    let len = reclen (length name) in
    let remaining = rec_len bytes at in
    let entry = put_entry child file_type name at bytes in
    if leb (len + sizeof_dirent) remaining
    then put_le 2 (put_free (remaining - len) (at + len) entry) (at + 4) len
    else put_le 2 entry (at + 4) remaining

-- where the scan of a block stops: at an entry, behind the last one, or never
pub data Hunt : Type 0 where
  at : ℕ → Hunt
  absent : Hunt
  endless : Hunt

-- The scan of a block for a free entry of `len` bytes, from `p` on. Each step that is not the last goes on by the
-- length of the entry, so a scan that runs out of fuel has looked at some place twice.
unfoldable pub find_slot : ℕ → ℕ → Data → ℕ → Hunt
unfolding get_le
find_slot zero len bytes p = endless
find_slot (suc fuel) len bytes p =
    let rest = find_slot fuel len bytes (p + rec_len bytes p) in
    if leb 4096 p
    then absent
    else if dirent_inode bytes p == 0 && leb len (rec_len bytes p) || rec_len bytes p == 0
    then at p
    else rest

-- `cache_get(block, 0)`: the index of the entry
unfoldable pub open_block : ℕ → SwiftFs → ℕ × SwiftFs
open_block block fs =
    let (i, cache) = cache_get block 0 fs.cache in (i, record fs { cache = cache })

-- a write through the pointer to entry `i`
unfoldable pub poke : ℕ → (Data → Data) → SwiftFs → SwiftFs
poke i f fs =
    let e = fs.cache.entries i in
    record fs { cache = set_entry i (record e { bytes = f e.bytes }) fs.cache }

unfoldable pub mark : ℕ → SwiftFs → SwiftFs
mark block fs = record fs { cache = cache_mark_dirty block 0 fs.cache }

-- a block that is opened, changed and marked
unfoldable pub change_block : ℕ → (Data → Data) → SwiftFs → SwiftFs
unfolding open_block poke mark
change_block block f fs = let (i, t) = open_block block fs in mark block (poke i f t)

-- the inode of a directory that has `block` as its block 12, the first one behind the indirect block; `none`
-- when there is no block for the table
unfoldable pub link_indirect : Inode → ℕ → SwiftFs → Option Inode × SwiftFs
unfolding change_block
link_indirect inode block fs =
    let (table, t) = block_alloc fs in
    let linked = put_le 4 inode 78 table in
    if not (indirect inode == 0)
    then (some inode, change_block (indirect inode) (λ bytes. put_le 4 bytes 0 block) fs)
    else if table == 0
    then (none, t)
    else (
      some linked,
      change_block table (λ bytes. put_le 4 bytes 0 block) (change_block table (λ bytes. zeros) t),
    )

-- a block from 13 on is not linked at all
unfoldable pub link_block : Inode → ℕ → ℕ → SwiftFs → Option Inode × SwiftFs
unfolding link_indirect
link_block inode bi block fs =
    if ltb bi direct_count
    then (some (put_le 4 inode (direct_at bi) block), fs)
    else if bi == direct_count
    then link_indirect inode block fs
    else (some inode, fs)

-- the inode of a directory with one block more
abbrev pub longer : Inode → Inode
longer inode =
    put_le 4 (put_le 8 inode 6 (add64 (size inode) 4096)) 26 (add32 (block_count inode) 1)

-- the inode is written and the entry put into the block behind entry `i`
unfoldable pub fill_block : ℕ → ℕ → ℕ → (Data → Data) → Option Inode × SwiftFs → Bool × SwiftFs
unfolding poke mark inode_write
fill_block dir_ino i block entry (none, fs) = (false, fs)
fill_block dir_ino i block entry (some inode, fs) =
    (true, mark block (poke i entry (inode_write dir_ino (longer inode) fs)))

-- a new block, as number `bi` of the directory
unfoldable pub append_block : ℕ → Inode → ℕ → (Data → Data) → SwiftFs → Bool × SwiftFs
unfolding open_block poke mark link_block fill_block
append_block dir_ino inode bi entry fs =
    let (block, t) = block_alloc fs in
    let (i, u) = open_block block t in
    let cleared = mark block (poke i (λ bytes. zeros) u) in
    if block == 0
    then (false, t)
    else fill_block dir_ino i block entry (link_block inode bi block cleared)

unfoldable pub place_entry : ℕ → ℕ → List ℕ → ℕ → ℕ → ℕ → SwiftFs → Bool × SwiftFs
unfolding poke mark reuse_entry
place_entry child file_type name block i p fs =
    (true, mark block (poke i (reuse_entry child file_type name p) fs))

-- what a round comes to: the entry is put into a free one, the next block is tried, or the scan never ends
abbrev pub place_or :
    Hunt → (ℕ → Bool × SwiftFs) → Option (Bool × SwiftFs) → Option (Bool × SwiftFs)
place_or (at p) place rest = some (place p)
place_or absent place rest = rest
place_or endless place rest = none

-- the blocks of the directory from `bi` on; `none` if the fuel ran out, here or in the scan of a block
unfoldable pub add_loop : ℕ → ℕ → ℕ → ℕ → List ℕ → Inode → ℕ → SwiftFs → Option (Bool × SwiftFs)
unfolding append_block first_entry open_block find_slot place_entry
add_loop zero dir_ino child file_type name inode bi fs = none
add_loop (suc fuel) dir_ino child file_type name inode bi fs =
    let m = bmap_read inode bi false fs in
    let (i, t) = open_block m.block m.fs in
    let slot = find_slot 4097 (reclen (length name)) (t.cache.entries i).bytes 0 in
    let rest = add_loop fuel dir_ino child file_type name m.inode (bi + 1) t in
    if m.block == 0
    then some (append_block dir_ino m.inode bi (first_entry child file_type name) m.fs)
    else place_or slot (λ p. place_entry child file_type name m.block i p t) rest

abbrev pub added : SwiftFs → Option (Bool × SwiftFs) → Bool × SwiftFs
added fs none = (false, fs)
added fs (some r) = r

unfoldable pub add_from : ℕ → ℕ → ℕ → List ℕ → Inode × SwiftFs → Bool × SwiftFs
unfolding add_loop
add_from dir_ino child file_type name (inode, fs) =
    added fs (add_loop dir_fuel dir_ino child file_type name inode 0 fs)

-- `true` is 0 and `false` is -1
unfoldable pub dir_add_entry : ℕ → List ℕ → ℕ → ℕ → SwiftFs → Bool × SwiftFs
unfolding add_from inode_read
dir_add_entry dir_ino name child file_type fs =
    add_from dir_ino child file_type name (inode_read dir_ino fs)
