-- ===== src/Fs/Vfs.antt =====
-- The descriptors of src/kernel/fs/vfs.c: `struct file` of vfs.h and the calls of vfs_open to
-- vfs_dup2 on the table of the current process. A table of operations is named by the file system,
-- pipe end or serial line that it belongs to; a call through a null entry is `null_call`, and a use of
-- a pipe that has been freed is `dangling`. Registered file systems and the serial line are an
-- interface over the state of those parts. A result of -1 is `negsuc 0`.
pub mod Io
pub mod Table
pub mod Share
mod Tests
use swift_bsd.Prelude.{
  ℕ, zero, suc, ◌+◌, ◌-◌, ◌*◌, ◌%◌, ◌^◌, ◌<◌, Bool, true, false, not, Option, none, some, List, [],
  ◌∷◌, ◌++◌, ◌==◌, ltb, leb, ◌&&◌, ◌||◌, if◌then◌else◌, update, add64, find_first, ℤ, pos, negsuc,
  length,
}
use swift_bsd.Fs.Pipe.{
  Pipe, new_pipe, Status, returns, waits, pipe_read_op, pipe_write_op, pipe_close_op,
  pipe_write_close_op,
}

abbrev pub vfs_max_files : ℕ
vfs_max_files = 64

-- the operations that `ops` points at; `no_ops` is the null pointer
pub data Ops : Type 0 where
  no_ops : Ops
  serial_ops : Ops
  pipe_read_ops : Ops
  pipe_write_ops : Ops
  fs_ops : ℕ → Ops

-- `struct file`
pub record File : Type 0 where
  pub ops : Ops
  pub priv : ℕ
  pub pos : ℕ
  pub flags : ℕ
  pub refcount : ℕ

-- `struct stat`
pub record Stat : Type 0 where
  pub mode : ℕ
  pub size : ℕ

-- a registered file system: each operation gives its return value and what it puts through pointers
pub record FileSystem (W : Type 0) : Type 0 where
  pub open_op : List ℕ → ℕ → W → ℤ × ℕ × W
  pub read_op : ℕ → ℕ → ℕ → W → ℤ × List ℕ × ℕ × W
  pub write_op : ℕ → List ℕ → ℕ → W → ℤ × ℕ × W
  pub close_op : ℕ → W → ℤ × W
  pub fstat_op : ℕ → W → ℤ × Option Stat × W

pub record Devices (W : Type 0) : Type 0 where
  pub fs : ℕ → FileSystem W
  pub serial_getc : W → ℕ × W
  pub serial_putc : ℕ → W → W

-- the current table, the registered file systems, and the pipes at their addresses
pub record Files (W : Type 0) : Type 0 where
  pub fds : ℕ → File
  pub fs_list : ℕ → ℕ
  pub nr_fs : ℕ
  pub pipes : ℕ → Option Pipe
  pub world : W

pub data Outcome (A : Type 0) : Type 0 where
  done : A → Outcome A
  null_call : Outcome A
  dangling : Outcome A

abbrev pub failure : ℤ
failure = negsuc 0

abbrev pub closed_file : File
closed_file = record { ops = no_ops; priv = 0; pos = 0; flags = 0; refcount = 0 }

-- `fd < 0 || fd >= VFS_MAX_FILES || g_fds[fd].refcount == 0`, or the descriptor's index
abbrev pub open_index : (ℕ → File) → ℤ → Option ℕ
open_index fds (negsuc n) = none
open_index fds (pos n) = if leb vfs_max_files n || (fds n).refcount == 0 then none else some n

unfoldable pub fd_alloc : (ℕ → File) → Option ℕ
fd_alloc fds = find_first (vfs_max_files - 2) 2 (λ i. (fds i).refcount == 0)

-- vfs_init: the two descriptors of the serial line, and all others free
abbrev pub serial_file : File → File
serial_file f = record f { ops = serial_ops; refcount = 1 }

unfoldable pub vfs_init : (ℕ → File) → ℕ → File
vfs_init fds i =
    if i == 0 || i == 1
    then serial_file (fds i)
    else if ltb i vfs_max_files
    then record (fds i) { refcount = 0 }
    else fds i

-- vfs_lseek; the position is 64 bits wide, and `offset` is the 64-bit pattern of the argument
abbrev pub seek_pos : File → ℕ → ℕ → Option ℕ
seek_pos f offset whence =
    if whence == 0 then some offset else if whence == 1 then some (add64 f.pos offset) else none

-- `(int)new_pos`
abbrev pub to_int : ℕ → ℤ
to_int n = let m = n % 2 ^ 32 in if ltb m (2 ^ 31) then pos m else negsuc (2 ^ 32 - 1 - m)

-- the two files that vfs_pipe fills in
abbrev pub pipe_file : Ops → ℕ → File
pipe_file ops p = record { ops = ops; priv = p; pos = 0; flags = 0; refcount = 1 }

module _ {W : Type 0} where
  abbrev pub set_file : ℕ → File → Files W → Files W
  set_file fd f s = record s { fds = update s.fds fd f }

  -- vfs_register
  unfoldable pub vfs_register : ℕ → Files W → ℤ × Files W
  vfs_register ops s =
      if leb 8 s.nr_fs
      then (failure, s)
      else (pos 0, record s { fs_list = update s.fs_list s.nr_fs ops; nr_fs = s.nr_fs + 1 })

  unfoldable pub vfs_lseek : ℤ → ℕ → ℕ → Files W → ℤ × Files W
  vfs_lseek fd offset whence s = elim (open_index s.fds fd) [
    | none ↦ (failure, s)
    | some i ↦ elim (seek_pos (s.fds i) offset whence) [
      | none ↦ (failure, s)
      | some p ↦ (to_int p, set_file i (record (s.fds i) { pos = p }) s)
    ]
  ]

  -- vfs_pipe, with the address that kmalloc returns and the bytes there; the result is the value
  -- returned and the two descriptors
  unfoldable pub vfs_pipe : ℕ → (ℕ → ℕ) → Files W → ℤ × ℕ × ℕ × Files W
  vfs_pipe p bytes s = if p == 0 then (failure, 0, 0, s) else elim (fd_alloc s.fds) [
    | none ↦ (failure, 0, 0, s)
    | some rfd ↦ elim (fd_alloc s.fds) [
      | none ↦ (failure, 0, 0, set_file rfd (record (s.fds rfd) { refcount = 0 }) s)
      | some wfd ↦ (
        pos 0,
        rfd,
        wfd,
        record s {
          fds =
              update (update s.fds rfd (pipe_file pipe_read_ops p)) wfd
                (pipe_file pipe_write_ops p);
          pipes = update s.pipes p (some (new_pipe bytes));
        },
      )
    ]
  ]

  -- `g_fds[new] = g_fds[old]; g_fds[new].refcount = 1; g_fds[old].refcount++`
  abbrev pub share : ℕ → ℕ → Files W → Files W
  share old new s =
      let t = set_file new (record (s.fds old) { refcount = 1 }) s in
      set_file old (record (t.fds old) { refcount = (t.fds old).refcount + 1 }) t

  unfoldable pub vfs_dup : ℤ → Files W → ℤ × Files W
  vfs_dup oldfd s = elim (open_index s.fds oldfd) [
    | none ↦ (failure, s)
    | some old ↦ elim (fd_alloc s.fds) [
      | none ↦ (failure, s)
      | some new ↦ (pos new, share old new s)
    ]
  ]

  -- a pipe after the close of one of its ends
  abbrev pub put_pipe : ℕ → Option Pipe → Files W → Files W
  put_pipe p q s = record s { pipes = update s.pipes p q }

module _ {W : Type 0} (D : Devices W) where
  -- `ops->close(priv)`
  unfoldable pub close_file : File → Files W → Outcome (ℤ × Files W)
  close_file f s = elim f.ops [
    | no_ops ↦ null_call
    | serial_ops ↦ done (pos 0, s)
    | pipe_read_ops ↦ elim (s.pipes f.priv) [
      | none ↦ dangling
      | some p ↦ done (pos 0, put_pipe f.priv (pipe_close_op p) s)
    ]
    | pipe_write_ops ↦ elim (s.pipes f.priv) [
      | none ↦ dangling
      | some p ↦ done (pos 0, put_pipe f.priv (pipe_write_close_op p) s)
    ]
    | fs_ops i ↦ let r = (D.fs i).close_op f.priv s.world in done (r.0, record s { world = r.1 })
  ]

  abbrev pub clear_slot : ℕ → Outcome (ℤ × Files W) → Outcome (ℤ × Files W)
  clear_slot fd (done (ret, s)) = done (ret, set_file fd closed_file s)
  clear_slot fd null_call = null_call
  clear_slot fd dangling = dangling

  unfoldable pub vfs_close : ℤ → Files W → Outcome (ℤ × Files W)
  vfs_close fd s = elim (open_index s.fds fd) [
    | none ↦ done (failure, s)
    | some i ↦
        let f = record (s.fds i) { refcount = (s.fds i).refcount - 1 } in
        let t = set_file i f s in
        if ltb 0 f.refcount then done (pos 0, t) else clear_slot i (close_file f t)
  ]

  abbrev pub then_share : ℕ → ℕ → Outcome (ℤ × Files W) → Outcome (ℤ × Files W)
  then_share old new (done (ret, s)) = done (pos new, share old new s)
  then_share old new null_call = null_call
  then_share old new dangling = dangling

  unfoldable pub vfs_dup2 : ℤ → ℤ → Files W → Outcome (ℤ × Files W)
  unfolding vfs_close
  vfs_dup2 oldfd newfd s = elim (open_index s.fds oldfd) [
    | none ↦ done (failure, s)
    | some old ↦ elim newfd [
      | negsuc n ↦ done (failure, s)
      | pos new ↦
          if leb vfs_max_files new
          then done (failure, s)
          else if new == old
          then done (pos new, s)
          else if ltb 0 (s.fds new).refcount
          then then_share old new (vfs_close (pos new) s)
          else done (pos new, share old new s)
    ]
  ]

  -- the rest of vfs_open once a file system has opened the path
  abbrev pub install : ℕ → ℕ → ℕ → Files W → ℤ × Files W
  install id priv flags s = elim (fd_alloc s.fds) [
    | none ↦ (failure, record s { world = ((D.fs id).close_op priv s.world).1 })
    | some fd ↦ (
      pos fd,
      set_file fd (record { ops = fs_ops id; priv = priv; pos = 0; flags = flags; refcount = 1 }) s,
    )
  ]

  -- `if (ret == 0)`: the descriptor, or the next file system
  abbrev pub if_opened : ℤ → ℤ × Files W → ℤ × Files W → ℤ × Files W
  if_opened (pos zero) found next = found
  if_opened (pos (suc n)) found next = next
  if_opened (negsuc n) found next = next

  -- the loop of vfs_open over the file systems from number `i` on, with `n` left
  unfoldable pub open_from : ℕ → ℕ → List ℕ → ℕ → Files W → ℤ × Files W
  open_from zero i path flags s = (failure, s)
  open_from (suc n) i path flags s =
      let id = s.fs_list i in
      let r = (D.fs id).open_op path flags s.world in
      let t = record s { world = r.2 } in
      if_opened r.0 (install id r.1 flags t) (open_from n (i + 1) path flags t)

  unfoldable pub vfs_open : List ℕ → ℕ → Files W → ℤ × Files W
  unfolding open_from
  vfs_open path flags s = open_from s.nr_fs 0 path flags s
