-- ===== src/Fs/Pipe.antt =====
-- The pipes of src/kernel/fs/vfs.c: `struct pipe`, pipe_read_op, pipe_write_op, pipe_close_op and
-- pipe_write_close_op. A loop that finds nothing to do calls sched_yield; such a call is handed back
-- as `waits`, with what it has moved so far, and goes on as a call for the rest. Until it waits or
-- returns, a loop makes two rounds at most: one that moves bytes and one that finds none or no room.
pub mod Ring
pub mod Fifo
mod Tests
use swift_bsd.Prelude.{
  ◌^◌, as_int, ℕ, zero, suc, ◌+◌, ◌-◌, ◌%◌, ◌<◌, Bool, true, false, Option, none, some, List, [],
  ◌∷◌, ◌++◌, ◌==◌, ltb, leb, ◌&&◌, if◌then◌else◌, update, add32, sub32, length, take, drop, ℤ, pos,
  negsuc, decrement, same_int,
}

abbrev pub pipe_buf_size : ℕ
pipe_buf_size = 4096

-- `struct pipe`
pub record Pipe : Type 0 where
  pub buf : ℕ → ℕ
  pub rpos : ℕ
  pub wpos : ℕ
  pub readers : ℤ
  pub writers : ℤ

-- what vfs_pipe makes of the bytes that kmalloc returns
abbrev pub new_pipe : (ℕ → ℕ) → Pipe
new_pipe bytes = record { buf = bytes; rpos = 0; wpos = 0; readers = pos 1; writers = pos 1 }

-- memcpy out of and into an array
unfoldable pub copy_out : (ℕ → ℕ) → ℕ → ℕ → List ℕ
copy_out buf off zero = []
copy_out buf off (suc n) = buf off ∷ copy_out buf (off + 1) n

unfoldable pub copy_in : (ℕ → ℕ) → ℕ → List ℕ → (ℕ → ℕ)
copy_in buf off [] = buf
copy_in buf off (x ∷ xs) = copy_in (update buf off x) (off + 1) xs

-- how a call stands when its loop ends or yields; the number is what it returns, the 32 bits of `total` as an
-- int
pub data Status : Type 0 where
  returns : ℤ → Status
  waits : Status

-- the bytes to read and the room to write
abbrev pub available : Pipe → ℕ
available p = sub32 p.wpos p.rpos

abbrev pub space : Pipe → ℕ
space p = sub32 pipe_buf_size (available p)

abbrev pub min32 : ℕ → ℕ → ℕ
min32 a b = if ltb a b then a else b

-- the `n` bytes at the read position, and the pipe behind them
unfoldable pub read_bytes : Pipe → ℕ → List ℕ
read_bytes p n =
    let off = p.rpos % pipe_buf_size in
    let first = pipe_buf_size - off in
    if leb (off + n) pipe_buf_size
    then copy_out p.buf off n
    else copy_out p.buf off first ++ copy_out p.buf 0 (n - first)

abbrev pub skip_bytes : Pipe → ℕ → Pipe
skip_bytes p n = record p { rpos = add32 p.rpos n }

-- the round that finds the pipe empty, after `total` bytes
abbrev pub read_end : Pipe → ℕ → Status
read_end p total = if same_int p.writers (pos 0) then returns (as_int total) else waits

-- pipe_read_op for `sz` bytes, `total` of an earlier part of the call read: the bytes that it reads
-- now and the pipe that it leaves
unfoldable pub pipe_read_op : Pipe → ℕ → ℕ → Status × List ℕ × Pipe
unfolding read_bytes
pipe_read_op p total sz =
    let n = min32 sz (available p) in
    if sz == 0
    then (returns (as_int (total % 2 ^ 32)), [], p)
    else if available p == 0
    then (read_end p (total % 2 ^ 32), [], p)
    else (
      if n == sz then returns (as_int (add32 total n)) else read_end p (add32 total n),
      read_bytes p n,
      skip_bytes p n,
    )

-- the bytes put at the write position
unfoldable pub write_bytes : Pipe → List ℕ → Pipe
unfolding copy_in
write_bytes p bytes =
    let n = length bytes in
    let off = p.wpos % pipe_buf_size in
    let first = pipe_buf_size - off in
    record p {
      buf =
          if leb (off + n) pipe_buf_size
          then copy_in p.buf off bytes
          else copy_in (copy_in p.buf off (take first bytes)) 0 (drop first bytes);
      wpos = add32 p.wpos n;
    }

-- the round that finds the pipe full, after `total` bytes
abbrev pub write_end : Pipe → ℕ → Status
write_end p total =
    if same_int p.readers (pos 0)
    then returns (if ltb 0 total then as_int total else negsuc 0)
    else waits

-- pipe_write_op for `bytes`, `total` of an earlier part of the call written: how many it writes now
unfoldable pub pipe_write_op : Pipe → ℕ → List ℕ → Status × ℕ × Pipe
pipe_write_op p total bytes =
    let sz = length bytes in
    let n = min32 sz (space p) in
    if sz == 0
    then (returns (as_int (total % 2 ^ 32)), 0, p)
    else if space p == 0
    then (write_end p (total % 2 ^ 32), 0, p)
    else (
      if n == sz then returns (as_int (add32 total n)) else write_end p (add32 total n),
      n,
      write_bytes p (take n bytes),
    )

-- `none` when the last end is closed and the pipe is freed
unfoldable pub release : Pipe → Option Pipe
release p = if same_int p.readers (pos 0) && same_int p.writers (pos 0) then none else some p

unfoldable pub pipe_close_op : Pipe → Option Pipe
unfolding release
pipe_close_op p = release (record p { readers = decrement p.readers })

unfoldable pub pipe_write_close_op : Pipe → Option Pipe
unfolding release
pipe_write_close_op p = release (record p { writers = decrement p.writers })
