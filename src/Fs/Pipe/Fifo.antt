-- ===== src/Fs/Pipe/Fifo.antt =====
-- A pipe is a queue of at most 4096 bytes, although its two positions wrap round at 2^32.
use swift_bsd.Prelude.{
  as_int, add32, some, ℕ, ◌+◌, ◌-◌, ◌%◌, ◌^◌, ◌≤◌, ◌<◌, ◌≡◌, refl, ap, sym, ◌∙◌, arith, List, [],
  ◌∷◌, ◌++◌, ◌==◌, ltb, if◌then◌else◌, length, take, length-take, min, Bool-cases, inl, inr, pos,
  negsuc, same_int, add32,
}
use mathlib.Core.List.{append_assoc}
use swift_bsd.Fs.Pipe.{
  Pipe, pipe_buf_size, available, space, min32, Status, returns, waits, read_bytes, write_bytes,
  skip_bytes, pipe_read_op, pipe_write_op, pipe_close_op, pipe_write_close_op, new_pipe,
}
use swift_bsd.Fs.Pipe.Ring.{
  ring, length-ring, ring_cong, ring-append, read_bytes-ring, ring-write_bytes,
}

pub record IsValid (p : Pipe) : Type 0 where
  pub rpos_in : p.rpos < 2 ^ 32
  pub wpos_in : p.wpos < 2 ^ 32
  pub fits : available p ≤ pipe_buf_size

-- the bytes written and not yet read, oldest first
abbrev pub contents : Pipe → List ℕ
contents p = ring p.buf p.rpos (available p)

pub length-contents : (p : Pipe) → length (contents p) ≡ available p
length-contents p = length-ring p.buf p.rpos (available p)

-- the bytes that a read of `n` bytes gives, and those it leaves
read_bytes-contents :
    (p : Pipe) (n : ℕ)
    → IsValid p
    → n ≤ available p
    → (contents p ≡ read_bytes p n ++ contents (skip_bytes p n))
      × IsValid (skip_bytes p n)
      × (length (read_bytes p n) ≡ n)
read_bytes-contents p n v le =
    let read = read_bytes-ring p n (omega (arith, v.fits)) in
    let left : available (skip_bytes p n) ≡ available p - n = omega (arith, v) in
    let whole : available p ≡ n + (available p - n) = omega arith in
    let parts = ap (ring p.buf p.rpos) whole ∙ ring-append p.buf p.rpos n (available p - n) in
    let moved : (p.rpos + n) % pipe_buf_size ≡ add32 p.rpos n % pipe_buf_size = omega arith in
    (
      rw (read, left)
          (parts
            ∙ ap (λ l. ring p.buf p.rpos n ++ l)
                (ring_cong p.buf (p.rpos + n) (add32 p.rpos n) (available p - n) moved)),
      record { rpos_in = omega arith; wpos_in = v.wpos_in; fits = omega (arith, v.fits, left) },
      rw read (length-ring p.buf p.rpos n),
    )

write_bytes-contents :
    (p : Pipe) (xs : List ℕ)
    → IsValid p
    → length xs ≤ space p
    → (contents (write_bytes p xs) ≡ contents p ++ xs) × IsValid (write_bytes p xs)
unfolding write_bytes
write_bytes-contents p xs v le =
    let now : available (write_bytes p xs) ≡ available p + length xs = omega (arith, v) in
    let room : available p + length xs ≤ pipe_buf_size = omega (arith, v) in
    let at : p.wpos % pipe_buf_size ≡ (p.rpos + available p) % pipe_buf_size = omega (arith, v) in
    (
      rw now (ring-write_bytes p p.rpos (available p) xs at room),
      record { rpos_in = v.rpos_in; wpos_in = omega arith; fits = omega (arith, now, room) },
    )

-- what a part of a read does to the queue
pub record Reads (p : Pipe) (total sz : ℕ) (st : Status) (got : List ℕ) (p' : Pipe) : Type 0 where
  pub order : contents p ≡ got ++ contents p'
  pub amount : length got ≡ min sz (available p)
  pub valid : IsValid p'
  pub status : st ≡ (
      if length got == sz
      then returns (as_int (add32 total (length got)))
      else if same_int p.writers (pos 0)
      then returns (as_int (add32 total (length got)))
      else waits)

-- pipe_read_op takes the oldest bytes of the queue, as many as are asked for and there; it returns
-- their number, counted with the earlier parts of the call and as an int of 32 bits, once it has all of them or no writer is
-- left, and otherwise waits. The invariant is kept.
pub pipe_read_op-Reads :
    (p : Pipe) (total sz : ℕ)
    → IsValid p
    → let (st, got, p') = pipe_read_op p total sz in Reads p total sz st got p'
unfolding pipe_read_op
pipe_read_op-Reads p total sz v = elim (Bool-cases (sz == 0)) [
  | inl none_asked ↦
      rw none_asked
        (record { order = refl; amount = ground arith; valid = v; status = ground arith })
  | inr some_asked ↦ elim (Bool-cases (available p == 0)) [
    | inl empty ↦
        rw (some_asked, empty)
          (record { order = refl; amount = ground arith; valid = v; status = ground arith })
    | inr full ↦
        let n = min32 sz (available p) in
        let le : n ≤ available p = ground arith in
        let r = read_bytes-contents p n v le in
        rw (some_asked, full)
          (record {
            order = r.0;
            amount = ground (arith, r.2);
            valid = r.1;
            status = ground (arith, r.2);
          })
  ]
]

pub record Writes (p : Pipe) (total : ℕ) (bytes : List ℕ) (st : Status) (n : ℕ) (p' : Pipe)
    : Type 0 where
  pub order : contents p' ≡ contents p ++ take n bytes
  pub amount : n ≡ min (length bytes) (pipe_buf_size - available p)
  pub valid : IsValid p'
  pub status : st ≡ (
      if n == length bytes
      then returns (as_int (add32 total n))
      else if same_int p.readers (pos 0)
      then returns (if ltb 0 (add32 total n) then as_int (add32 total n) else negsuc 0)
      else waits)

append-none : (xs : List ℕ) → xs ≡ xs ++ []
append-none [] = refl
append-none (x ∷ xs) = ap (λ l. x ∷ l) (append-none xs)

-- pipe_write_op appends the first bytes of the call to the queue, as many as there is room for; it
-- returns their number, counted with the earlier parts of the call and as an int of 32 bits, once all are written or no reader
-- is left (-1 if none was written), and otherwise waits. The invariant is kept.
pub pipe_write_op-Writes :
    (p : Pipe) (total : ℕ) (bytes : List ℕ)
    → IsValid p
    → let (st, n, p') = pipe_write_op p total bytes in Writes p total bytes st n p'
unfolding pipe_write_op
pipe_write_op-Writes p total bytes v = elim (Bool-cases (length bytes == 0)) [
  | inl none_given ↦
      rw none_given
        (record { order = append-none _; amount = ground arith; valid = v; status = ground arith })
  | inr some_given ↦ elim (Bool-cases (space p == 0)) [
    | inl full ↦
        rw (some_given, full)
          (record {
            order = append-none _;
            amount = ground (arith, v.fits);
            valid = v;
            status = ground arith;
          })
    | inr room ↦
        let n = min32 (length bytes) (space p) in
        let short : length (take n bytes) ≡ n = ground (arith, length-take n bytes) in
        let r = write_bytes-contents p (take n bytes) v (ground arith) in
        rw (some_given, room)
          (record {
            order = r.0;
            amount = ground (arith, v.fits);
            valid = r.1;
            status = ground arith;
          })
  ]
]

-- A pipe in use: the bytes that all writes so far have put in, and that all reads have taken out.
pub record Run : Type 0 where
  pub pipe : Pipe
  pub sent : List ℕ
  pub got : List ℕ

-- Parts of reads and writes, by any process, and the closing of an end, in any order.
pub data Step (r : Run) : Run → Type 0 where
  write :
      (total : ℕ) (bytes : List ℕ)
      → Step r (
          let (st, n, p) = pipe_write_op r.pipe total bytes in
          record { pipe = p; sent = r.sent ++ take n bytes; got = r.got })
  read :
      (total sz : ℕ)
      → Step r (
          let (st, bytes, p) = pipe_read_op r.pipe total sz in
          record { pipe = p; sent = r.sent; got = r.got ++ bytes })
  close_reader : (p : Pipe) → pipe_close_op r.pipe ≡ some p → Step r (record r { pipe = p })
  close_writer : (p : Pipe) → pipe_write_close_op r.pipe ≡ some p → Step r (record r { pipe = p })

pub data Reach (r : Run) : Run → Type 0 where
  start : Reach r r
  next : {s t : Run} → Reach r s → Step s t → Reach r t

pub record IsFifo (r : Run) : Type 0 where
  pub valid : IsValid r.pipe
  pub order : r.sent ≡ r.got ++ contents r.pipe

close-same :
    (p q : Pipe)
    → pipe_close_op p ≡ some q
    → (q.buf ≡ p.buf) × (q.rpos ≡ p.rpos) × (q.wpos ≡ p.wpos)
unfolding pipe_close_op
close-same p q e = ground arith

write_close-same :
    (p q : Pipe)
    → pipe_write_close_op p ≡ some q
    → (q.buf ≡ p.buf) × (q.rpos ≡ p.rpos) × (q.wpos ≡ p.wpos)
unfolding pipe_write_close_op
write_close-same p q e = ground arith

IsFifo-same :
    {r : Run} {q : Pipe}
    → IsFifo r
    → (q.buf ≡ r.pipe.buf) × (q.rpos ≡ r.pipe.rpos) × (q.wpos ≡ r.pipe.wpos)
    → IsFifo (record r { pipe = q })
IsFifo-same {r} {q} f (b, e, w) = record {
  valid = record {
    rpos_in = rw e f.valid.rpos_in;
    wpos_in = rw w f.valid.wpos_in;
    fits = rw (e, w) f.valid.fits;
  };
  order = rw (b, e, w) f.order;
}

pub Step-IsFifo : {r s : Run} → IsFifo r → Step r s → IsFifo s
Step-IsFifo {r} f (write total bytes) =
    let w = pipe_write_op-Writes r.pipe total bytes f.valid in
    record {
      valid = w.valid;
      order = rw (w.order, f.order) (append_assoc r.got (contents r.pipe) _);
    }
Step-IsFifo {r} f (read total sz) =
    let g = pipe_read_op-Reads r.pipe total sz f.valid in
    record {
      valid = g.valid;
      order = f.order ∙ ap (λ l. r.got ++ l) g.order ∙ sym (append_assoc r.got _ _);
    }
Step-IsFifo {r} f (close_reader p e) = IsFifo-same f (close-same r.pipe p e)
Step-IsFifo {r} f (close_writer p e) = IsFifo-same f (write_close-same r.pipe p e)

pub Reach-IsFifo : {r s : Run} → IsFifo r → Reach r s → IsFifo s
Reach-IsFifo f start = f
Reach-IsFifo f (next h st) = Step-IsFifo (Reach-IsFifo f h) st

-- From a new pipe on, however the parts of reads and writes by any processes and the closing of ends
-- are interleaved: the bytes read so far, followed by the at most 4096 bytes in the pipe, are exactly
-- the bytes written so far, in order.
pub pipe_fifo :
    (bytes : ℕ → ℕ) {r : Run}
    → Reach (record { pipe = new_pipe bytes; sent = []; got = [] }) r
    → (r.sent ≡ r.got ++ contents r.pipe) × (length (contents r.pipe) ≤ pipe_buf_size)
pipe_fifo bytes {r} h =
    let f = Reach-IsFifo (record { valid = omega arith; order = refl }) h in
    (f.order, omega (arith, length-contents r.pipe, f.valid.fits))
