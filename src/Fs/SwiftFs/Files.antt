-- ===== src/Fs/SwiftFs/Files.antt =====
-- The calls on open files of src/kernel/fs/swiftfs2.c: fd_alloc, swiftfs2_read, swiftfs2_write,
-- swiftfs2_fstat, swiftfs2_close. A descriptor is not negative here; `none` stands for -1, and a count of
-- bytes for what swiftfs2_write returns; swiftfs2_read gives the bytes that it puts into the buffer. The
-- loops move at least one byte in each round, so the number of bytes is enough fuel.

pub mod Reading
mod Tests
use swift_bsd.Prelude.{
  ℕ, zero, suc, ◌+◌, ◌-◌, ◌*◌, ◌/◌, ◌%◌, ◌^◌, Bool, true, false, not, Option, none, some, List, [],
  ◌++◌, ◌==◌, ◌&&◌, ◌||◌, ltb, leb, if◌then◌else◌, find_first, update, add32, sub64, length, take,
  drop,
}
use swift_bsd.Fs.Pipe.{copy_out, copy_in}
use swift_bsd.Fs.SwiftFs.Cache.{Data, Cache, cache_get, modify}
use swift_bsd.Fs.SwiftFs.State.{SwiftFs, SwiftFd}
use swift_bsd.Fs.SwiftFs.Bytes.{put_le}
use swift_bsd.Fs.SwiftFs.Inodes.{Inode, mode, size, inode_read, inode_write}
use swift_bsd.Fs.SwiftFs.Bmap.{Mapped, bmap_read}

abbrev pub max_fd : ℕ
max_fd = 64

unfoldable pub fd_alloc : SwiftFs → Option ℕ
fd_alloc fs = find_first 62 2 (λ i. (fs.fds i).inode == 0)

-- `fd < 0 || fd >= SWIFTFS2_MAX_FD || !g_fds[fd].inode`
abbrev pub not_open : ℕ → SwiftFs → Bool
not_open fd fs = leb max_fd fd || (fs.fds fd).inode == 0

-- the bytes of a block that a round moves
abbrev pub chunk_at : ℕ → ℕ → ℕ
chunk_at at left = if ltb left (4096 - at % 4096) then left else 4096 - at % 4096

-- `left` bytes from position `at` on; a block that is not there ends the loop
unfoldable pub read_loop : ℕ → ℕ → ℕ → Inode → SwiftFs → List ℕ × SwiftFs
read_loop zero at left inode fs = ([], fs)
read_loop (suc fuel) at left inode fs =
    let m = bmap_read inode (at / 4096) false fs in
    let (i, cache) = cache_get m.block 0 m.fs.cache in
    let chunk = chunk_at at left in
    let rest =
      read_loop fuel (add32 at chunk) (left - chunk) m.inode (record (m.fs) { cache = cache }) in
    if left == 0
    then ([], fs)
    else if m.block == 0
    then ([], m.fs)
    else (copy_out (cache.entries i).bytes (at % 4096) chunk ++ rest.0, rest.1)

abbrev pub set_fd : ℕ → SwiftFd → SwiftFs → SwiftFs
set_fd fd f fs = record fs { fds = update fs.fds fd f }

-- how many bytes swiftfs2_read moves; `pos + to_read` is on 32 bits
abbrev pub to_read : ℕ → ℕ → ℕ → ℕ
to_read pos count file_size =
    if ltb file_size (add32 pos count) then (file_size - pos) % 2 ^ 32 else count

unfoldable pub read_at : ℕ → ℕ → Inode × SwiftFs → Option (List ℕ) × SwiftFs
unfolding read_loop
read_at fd count (inode, fs) =
    let f = fs.fds fd in
    let n = to_read f.pos count (size inode) in
    let (bytes, t) = read_loop n f.pos n inode fs in
    if leb (size inode) f.pos
    then (some [], fs)
    else (some bytes, set_fd fd (record f { pos = add32 f.pos (length bytes) }) t)

unfoldable pub swiftfs2_read : ℕ → ℕ → SwiftFs → Option (List ℕ) × SwiftFs
unfolding read_at inode_read
swiftfs2_read fd count fs =
    if not_open fd fs || (fs.fds fd).flags == 1
    then (none, fs)
    else read_at fd count (inode_read (fs.fds fd).inode fs)

-- what the loop of swiftfs2_write has done
pub record Progress : Type 0 where
  pub done : ℕ
  pub inode : Inode
  pub fs : SwiftFs

unfoldable pub write_loop : ℕ → ℕ → List ℕ → Inode → SwiftFs → Progress
write_loop zero at bytes inode fs = record { done = 0; inode = inode; fs = fs }
write_loop (suc fuel) at bytes inode fs =
    let m = bmap_read inode (at / 4096) true fs in
    let chunk = chunk_at at (length bytes) in
    let t = record (m.fs) {
      cache = modify m.block (λ old. copy_in old (at % 4096) (take chunk bytes)) m.fs.cache;
    } in
    let rest = write_loop fuel (add32 at chunk) (drop chunk bytes) m.inode t in
    if length bytes == 0
    then record { done = 0; inode = inode; fs = fs }
    else if m.block == 0
    then record { done = 0; inode = m.inode; fs = m.fs }
    else record rest { done = chunk + rest.done }

-- the size and the block count of the inode after a write that ends at `pos`
abbrev pub grown : ℕ → Inode → Inode
grown pos inode =
    let larger = if ltb (size inode) pos then put_le 8 inode 6 pos else inode in
    put_le 4 larger 26 ((size larger + 4095) % 2 ^ 64 / 4096)

unfoldable pub write_at : ℕ → List ℕ → Inode × SwiftFs → Option ℕ × SwiftFs
unfolding write_loop inode_write
write_at fd bytes (inode, fs) =
    let f = fs.fds fd in
    let p = write_loop (length bytes) f.pos bytes inode fs in
    let pos = add32 f.pos p.done in
    (some p.done, set_fd fd (record f { pos = pos }) (inode_write f.inode (grown pos p.inode) p.fs))

unfoldable pub swiftfs2_write : ℕ → List ℕ → SwiftFs → Option ℕ × SwiftFs
unfolding write_at inode_read
swiftfs2_write fd bytes fs =
    if not_open fd fs || (fs.fds fd).flags == 0
    then (none, fs)
    else write_at fd bytes (inode_read (fs.fds fd).inode fs)

abbrev pub stat_of : Inode × SwiftFs → Option (ℕ × ℕ) × SwiftFs
stat_of (inode, fs) = (some (mode inode, size inode), fs)

-- the mode and the size that swiftfs2_fstat puts into `*st`
unfoldable pub swiftfs2_fstat : ℕ → SwiftFs → Option (ℕ × ℕ) × SwiftFs
unfolding inode_read
swiftfs2_fstat fd fs =
    if not_open fd fs then (none, fs) else stat_of (inode_read (fs.fds fd).inode fs)

abbrev pub rewrite_inode : ℕ → Inode × SwiftFs → SwiftFs
rewrite_inode ino (inode, fs) = inode_write ino inode fs

abbrev pub closed_fd : SwiftFd
closed_fd = record { inode = 0; pos = 0; flags = 0; dirty = false }

unfoldable pub swiftfs2_close : ℕ → SwiftFs → Option ℕ × SwiftFs
unfolding inode_read inode_write
swiftfs2_close fd fs =
    let ino = (fs.fds fd).inode in
    let t = if (fs.fds fd).dirty then rewrite_inode ino (inode_read ino fs) else fs in
    if not_open fd fs then (none, fs) else (some 0, set_fd fd closed_fd t)
