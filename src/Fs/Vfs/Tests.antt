-- ===== src/Fs/Vfs/Tests.antt =====
-- The descriptors of vfs.c over one file system that opens every path and counts its calls.
use swift_bsd.Prelude.{
  ℕ, ◌+◌, ◌≡◌, ◌⊎◌, refl, arith, [], ◌∷◌, none, some, ℤ, pos, update, find_first,
}
use swift_bsd.Fs.Pipe.{new_pipe}
use swift_bsd.Fs.Vfs.{
  pipe_write_ops, fs_ops, Devices, Files, done, null_call, failure, closed_file, fd_alloc,
  pipe_file, vfs_init, vfs_pipe, vfs_open, vfs_dup, vfs_close, open_from,
}
use swift_bsd.Fs.Vfs.Io.{vfs_read}
use swift_bsd.Fs.Vfs.Table.{IsFree, OpenResult, OnlyAt, vfs_pipe-same, vfs_open-OpenResult}
use swift_bsd.Fs.Vfs.Share.{Shared, vfs_dup-Shared, vfs_close-vfs_dup, vfs_close-vfs_open}

abbrev counter : Devices ℕ
counter = record {
  fs = λ i. record {
    open_op = λ path flags w. (pos 0, 7, w + 1);
    read_op = λ priv sz at w. (pos 0, [], at, w);
    write_op = λ priv bytes at w. (pos 0, at, w);
    close_op = λ priv w. (pos 0, w + 1);
    fstat_op = λ priv w. (pos 0, some (record { mode = 0; size = 0 }), w);
  };
  serial_getc = λ w. (0, w);
  serial_putc = λ c w. w;
}

abbrev boot : Files ℕ
boot = record {
  fds = vfs_init (λ i. closed_file);
  fs_list = λ i. 0;
  nr_fs = 1;
  pipes = λ a. none;
  world = 0;
}

vfs_open-boot : vfs_open counter [] 0 boot ≡ (
  pos 2,
  record boot {
    fds = update boot.fds 2 (record { ops = fs_ops 0; priv = 7; pos = 0; flags = 0; refcount = 1 });
    world = 1;
  },
)
unfolding vfs_open open_from fd_alloc find_first vfs_init
vfs_open-boot = refl

vfs_open-OpenResult_example : OpenResult boot 0 (vfs_open counter (b'a' ∷ []) 0 boot)
vfs_open-OpenResult_example = vfs_open-OpenResult counter (b'a' ∷ []) 0 boot

boot-fd_alloc : fd_alloc boot.fds ≡ some 2
unfolding fd_alloc find_first vfs_init
boot-fd_alloc = refl

vfs_pipe-same_example :
    let (ret, rfd, wfd, t) = vfs_pipe 0x9000 (λ i. 0) boot in
    (ret ≡ pos 0)
    × (rfd ≡ wfd)
    × ((t.fds wfd).ops ≡ pipe_write_ops)
    × ((sz : ℕ) → vfs_read counter (pos rfd) sz t ≡ null_call)
vfs_pipe-same_example = vfs_pipe-same counter 0x9000 (λ i. 0) boot (omega arith) boot-fd_alloc

vfs_close-vfs_open_example :
    (ret : ℤ) × (u : Files ℕ) × (vfs_close counter (pos 2) (vfs_open counter [] 0 boot).1
      ≡ done (ret, u))
    × (u.fds 2 ≡ closed_file)
    × OnlyAt 2 boot u
unfolding vfs_open open_from fd_alloc find_first vfs_init
vfs_close-vfs_open_example =
    vfs_close-vfs_open counter [] 0 2 boot (vfs_open counter [] 0 boot).1 refl

-- a table whose descriptor 2 is the write end of the pipe at 0x9000
abbrev piped : Files ℕ
piped = record boot {
  fds = update boot.fds 2 (pipe_file pipe_write_ops 0x9000);
  pipes = update (λ a. none) 0x9000 (some (new_pipe (λ i. 0)));
}

vfs_dup-Shared_example :
    ((new : ℕ) × (t : Files ℕ) × (vfs_dup (pos 2) piped ≡ (pos new, t))
      × IsFree piped.fds new
      × Shared piped t 2 new)
    ⊎ ((vfs_dup (pos 2) piped ≡ (failure, piped)) × (fd_alloc piped.fds ≡ none))
vfs_dup-Shared_example = vfs_dup-Shared 2 piped (omega arith) (omega arith)

vfs_close-vfs_dup_example :
    (u : Files ℕ) × (vfs_close counter (pos 3) (vfs_dup (pos 2) piped).1 ≡ done (pos 0, u))
    × (u.pipes 0x9000 ≡ some (record (new_pipe (λ i. 0)) { writers = pos 0 }))
    × ((u.fds 2).refcount ≡ 2)
    × ((u.fds 2).ops ≡ pipe_write_ops)
unfolding fd_alloc find_first vfs_init
vfs_close-vfs_dup_example =
    vfs_close-vfs_dup counter 2 3 0x9000 0 (new_pipe (λ i. 0)) piped (omega arith) refl refl refl
      refl refl refl refl
