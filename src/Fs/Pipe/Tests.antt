-- ===== src/Fs/Pipe/Tests.antt =====
-- The pipes of vfs.c across the end of the buffer and across 2^32.
use swift_bsd.Prelude.{ℕ, ◌≤◌, ◌≡◌, refl, arith, List, [], ◌∷◌, ◌++◌, length, take, pos}
use swift_bsd.Fs.Pipe.{
  Pipe, pipe_buf_size, new_pipe, waits, pipe_read_op, pipe_write_op, write_bytes, copy_in, copy_out,
}
use swift_bsd.Fs.Pipe.Fifo.{
  IsValid, contents, Reads, Writes, pipe_read_op-Reads, pipe_write_op-Writes, Run, start, next,
  write, read, pipe_fifo,
}

-- an empty pipe whose positions stand three bytes before 2^32
abbrev worn : Pipe
worn = record {
  buf = λ i. 0;
  rpos = 0xFFFF_FFFD;
  wpos = 0xFFFF_FFFD;
  readers = pos 1;
  writers = pos 1;
}

abbrev five : List ℕ
five = 1 ∷ 2 ∷ 3 ∷ 4 ∷ 5 ∷ []

read-worn : (pipe_read_op (pipe_write_op worn 0 five).2 0 4).1 ≡ 1 ∷ 2 ∷ 3 ∷ 4 ∷ []
unfolding pipe_read_op pipe_write_op write_bytes copy_in copy_out
read-worn = refl

wait-worn : (pipe_read_op worn 2 4).0 ≡ waits
unfolding pipe_read_op
wait-worn = refl

worn-IsValid : IsValid worn
worn-IsValid = omega arith

pipe_read_op-Reads_example : let (st, got, p') = pipe_read_op worn 0 4 in Reads worn 0 4 st got p'
pipe_read_op-Reads_example = pipe_read_op-Reads worn 0 4 worn-IsValid

pipe_write_op-Writes_example :
    let (st, n, p') = pipe_write_op worn 0 five in Writes worn 0 five st n p'
pipe_write_op-Writes_example = pipe_write_op-Writes worn 0 five worn-IsValid

abbrev fresh : Run
fresh = record { pipe = new_pipe (λ i. 0); sent = []; got = [] }

abbrev filled : Run
filled =
    let (st, n, p) = pipe_write_op fresh.pipe 0 five in
    record { pipe = p; sent = [] ++ take n five; got = [] }

pipe_fifo_example :
    let (st, bytes, p) = pipe_read_op filled.pipe 0 3 in
    (filled.sent ≡ ([] ++ bytes) ++ contents p) × (length (contents p) ≤ pipe_buf_size)
pipe_fifo_example = pipe_fifo (λ i. 0) (next (next start (write 0 five)) (read 0 3))
