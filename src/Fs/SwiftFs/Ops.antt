-- ===== src/Fs/SwiftFs/Ops.antt =====
-- The operations that src/kernel/fs/swiftfs2.c registers with src/kernel/fs/vfs.c: sw_open to sw_fstat. The
-- private pointer of a file is its descriptor.
use swift_bsd.Prelude.{
  as_int, ℕ, ◌%◌, ◌^◌, Bool, Option, none, some, List, [], ltb, ◌&&◌, if◌then◌else◌, ℤ, pos, negsuc,
  length,
}
use swift_bsd.Fs.SwiftFs.State.{SwiftFs}
use swift_bsd.Fs.SwiftFs.Files.{
  set_fd, swiftfs2_read, swiftfs2_write, swiftfs2_fstat, swiftfs2_close,
}
use swift_bsd.Fs.SwiftFs.Names.{swiftfs2_open}
use swift_bsd.Fs.Vfs.{FileSystem, Stat}

-- `ret > 0`
abbrev pub is_positive : ℕ → Bool
is_positive n = ltb 0 n && ltb n (2 ^ 31)

abbrev opened : Option ℕ × SwiftFs → ℤ × ℕ × SwiftFs
opened (none, fs) = (negsuc 0, 0, fs)
opened (some fd, fs) = (pos 0, fd, fs)

unfoldable pub sw_open : List ℕ → ℕ → SwiftFs → ℤ × ℕ × SwiftFs
sw_open path flags fs = opened (swiftfs2_open path flags fs)

-- `g_fds[fd].pos = (uint32_t)*pos`
abbrev pub seek_to : ℕ → ℕ → SwiftFs → SwiftFs
seek_to fd at fs = set_fd fd (record (fs.fds fd) { pos = at % 2 ^ 32 }) fs

-- the position after a call that has moved `n` bytes
abbrev pub position_after : ℕ → ℕ → ℕ → SwiftFs → ℕ
position_after fd n at fs = if is_positive n then (fs.fds fd).pos else at

abbrev read_result : ℕ → ℕ → Option (List ℕ) × SwiftFs → ℤ × List ℕ × ℕ × SwiftFs
read_result fd at (none, fs) = (negsuc 0, [], at, fs)
read_result fd at (some bytes, fs) =
    (as_int (length bytes), bytes, position_after fd (length bytes) at fs, fs)

unfoldable pub sw_read : ℕ → ℕ → ℕ → SwiftFs → ℤ × List ℕ × ℕ × SwiftFs
sw_read fd sz at fs = read_result fd at (swiftfs2_read fd sz (seek_to fd at fs))

abbrev write_result : ℕ → ℕ → Option ℕ × SwiftFs → ℤ × ℕ × SwiftFs
write_result fd at (none, fs) = (negsuc 0, at, fs)
write_result fd at (some n, fs) = (as_int n, position_after fd n at fs, fs)

unfoldable pub sw_write : ℕ → List ℕ → ℕ → SwiftFs → ℤ × ℕ × SwiftFs
sw_write fd bytes at fs = write_result fd at (swiftfs2_write fd bytes (seek_to fd at fs))

abbrev close_result : Option ℕ × SwiftFs → ℤ × SwiftFs
close_result (none, fs) = (negsuc 0, fs)
close_result (some _, fs) = (pos 0, fs)

unfoldable pub sw_close : ℕ → SwiftFs → ℤ × SwiftFs
sw_close fd fs = close_result (swiftfs2_close fd fs)

abbrev stat_result : Option (ℕ × ℕ) × SwiftFs → ℤ × Option Stat × SwiftFs
stat_result (none, fs) = (negsuc 0, none, fs)
stat_result (some (mode, size), fs) = (pos 0, some (record { mode = mode; size = size }), fs)

unfoldable pub sw_fstat : ℕ → SwiftFs → ℤ × Option Stat × SwiftFs
sw_fstat fd fs = stat_result (swiftfs2_fstat fd fs)

-- what vfs_register is given
unfoldable pub swiftfs_vfs_ops : FileSystem SwiftFs
swiftfs_vfs_ops = record {
  open_op = sw_open;
  read_op = sw_read;
  write_op = sw_write;
  close_op = sw_close;
  fstat_op = sw_fstat;
}
