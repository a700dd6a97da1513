-- ===== src/Fs/Vfs/Table.antt =====
-- What the calls of src/kernel/fs/vfs.c do to the table of descriptors.
use swift_bsd.Prelude.{
  subst, ℕ, zero, suc, ◌+◌, ◌-◌, ◌≤◌, ◌<◌, ◌≡◌, ◌≢◌, inl, inr, refl, arith, false, none, some, List,
  ◌==◌, update, find_first-Found, find_first-none, Found, ℤ, pos, negsuc, Option-cases, ap,
}
use swift_bsd.Fs.Pipe.{new_pipe}
use swift_bsd.Fs.Vfs.{
  vfs_max_files, pipe_read_ops, pipe_write_ops, fs_ops, File, Devices, Files, null_call, failure,
  open_index, fd_alloc, pipe_file, vfs_pipe, install, open_from, if_opened, vfs_open,
}
use swift_bsd.Fs.Vfs.Io.{vfs_read}

-- the lowest descriptor that is not in use, from 2 on
pub record IsFree (fds : ℕ → File) (fd : ℕ) : Type 0 where
  pub low : 2 ≤ fd
  pub high : fd < vfs_max_files
  pub free : (fds fd).refcount ≡ 0
  pub first : (k : ℕ) → 2 ≤ k → k < fd → (fds k).refcount ≢ 0

not_zero : (n : ℕ) → (n == 0) ≡ false → n ≢ 0
not_zero n h = ground arith

pub fd_alloc-IsFree : (fds : ℕ → File) {fd : ℕ} → fd_alloc fds ≡ some fd → IsFree fds fd
unfolding fd_alloc
fd_alloc-IsFree fds {fd} e =
    let f : Found (vfs_max_files - 2) 2 (λ i. (fds i).refcount == 0) fd =
      find_first-Found _ _ _ e in
    record {
      low = f.low;
      high = omega (arith, f.high);
      free = ground (arith, f.passes);
      first = λ k p q. not_zero _ (f.first k p q);
    }

pub fd_alloc-full :
    (fds : ℕ → File)
    → fd_alloc fds ≡ none
    → (k : ℕ) → 2 ≤ k
    → k < vfs_max_files
    → (fds k).refcount ≢ 0
unfolding fd_alloc
fd_alloc-full fds e k low high = not_zero _ (find_first-none _ _ _ e k low (omega arith))

open_index-at :
    (fds : ℕ → File) (fd : ℕ)
    → fd < vfs_max_files
    → (fds fd).refcount ≢ 0
    → open_index fds (pos fd) ≡ some fd
open_index-at fds fd high used = ground arith

module _ {W : Type 0} (p : ℕ) (bytes : ℕ → ℕ) (s : Files W) where
  -- the state after vfs_pipe has put both ends into the slot `fd`
  abbrev pub piped : ℕ → Files W
  piped fd = record s {
    fds = update (update s.fds fd (pipe_file pipe_read_ops p)) fd (pipe_file pipe_write_ops p);
    pipes = update s.pipes p (some (new_pipe bytes));
  }

  vfs_pipe-piped :
      {fd : ℕ}
      → (p == 0) ≡ false
      → fd_alloc s.fds ≡ some fd
      → vfs_pipe p bytes s ≡ (pos 0, fd, fd, piped fd)
  unfolding vfs_pipe
  vfs_pipe-piped given found = ground arith

-- With memory for a pipe and a descriptor not in use, vfs_pipe succeeds and gives the same
-- descriptor twice, which holds the write end: a read from it calls through a null pointer.
pub vfs_pipe-same :
    {W : Type 0} (D : Devices W) (p : ℕ) (bytes : ℕ → ℕ) (s : Files W) {fd : ℕ}
    → p ≢ 0
    → fd_alloc s.fds ≡ some fd
    → let (ret, rfd, wfd, t) = vfs_pipe p bytes s in
      (ret ≡ pos 0)
      × (rfd ≡ wfd)
      × ((t.fds wfd).ops ≡ pipe_write_ops)
      × ((sz : ℕ) → vfs_read D (pos rfd) sz t ≡ null_call)
unfolding vfs_read
vfs_pipe-same D p bytes s {fd} given found =
    let f = fd_alloc-IsFree s.fds found in
    rw (vfs_pipe-piped p bytes s (ground arith) found)
      (refl, refl, ground arith, λ sz. ground (arith, f.high))

-- Only the slot `fd` of the table differs.
abbrev pub OnlyAt : {W : Type 0} → ℕ → Files W → Files W → Type 0
OnlyAt fd s t = (i : ℕ) → i ≢ fd → t.fds i ≡ s.fds i

-- what a successful vfs_open has done
pub record Opened {W : Type 0} (s t : Files W) (flags fd : ℕ) : Type 0 where
  pub slot : IsFree s.fds fd
  pub started : ((t.fds fd).pos ≡ 0) × ((t.fds fd).flags ≡ flags) × ((t.fds fd).refcount ≡ 1)
  pub owner : (id : ℕ) × ((t.fds fd).ops ≡ fs_ops id)
  pub others : OnlyAt fd s t

pub data OpenResult {W : Type 0} (s : Files W) (flags : ℕ) : ℤ × Files W → Type 0 where
  opened : (fd : ℕ) (t : Files W) → Opened s t flags fd → OpenResult s flags (pos fd, t)
  refused : (t : Files W) → t.fds ≡ s.fds → OpenResult s flags (failure, t)

module _ {W : Type 0} (D : Devices W) where
  install-OpenResult :
      (id priv flags : ℕ) (s t : Files W)
      → t.fds ≡ s.fds
      → OpenResult s flags (install D id priv flags t)
  install-OpenResult id priv flags s t e = elim (Option-cases (fd_alloc t.fds)) [
    | inl full ↦ rw (full, install) (refused _ e)
    | inr (fd, found) ↦
        let f : IsFree s.fds fd = rw e at (fd_alloc-IsFree t.fds found) in
        rw (found, install)
          (opened fd _ (record {
            slot = f;
            started = ground arith;
            owner = (id, ground arith);
            others = λ i ne. ground (arith, ap (λ fds. fds i) e);
          }))
  ]

  if_opened-OpenResult :
      (ret : ℤ) {s : Files W} {flags : ℕ} {a b : ℤ × Files W}
      → OpenResult s flags a
      → OpenResult s flags b
      → OpenResult s flags (if_opened D ret a b)
  if_opened-OpenResult (pos zero) a b = a
  if_opened-OpenResult (pos (suc n)) a b = b
  if_opened-OpenResult (negsuc n) a b = b

  open_from-OpenResult :
      (n i : ℕ) (path : List ℕ) (flags : ℕ) (s t : Files W)
      → t.fds ≡ s.fds
      → OpenResult s flags (open_from D n i path flags t)
  unfolding open_from
  open_from-OpenResult zero i path flags s t e = refused t e
  open_from-OpenResult (suc n) i path flags s t e =
      let r = (D.fs (t.fs_list i)).open_op path flags t.world in
      if_opened-OpenResult r.0
        (install-OpenResult (t.fs_list i) r.1 flags s (record t { world = r.2 }) e)
        (open_from-OpenResult n (i + 1) path flags s (record t { world = r.2 }) e)

  -- Whatever the registered file systems do, vfs_open either returns -1 and leaves the table as it
  -- was, or it returns the lowest free descriptor from 2 on, now in use once, at position 0 and with
  -- the flags given, and every other slot is as it was.
  pub vfs_open-OpenResult :
      (path : List ℕ) (flags : ℕ) (s : Files W) → OpenResult s flags (vfs_open D path flags s)
  unfolding vfs_open
  vfs_open-OpenResult path flags s = open_from-OpenResult s.nr_fs 0 path flags s s refl

pub OpenResult-Opened :
    {W : Type 0} {s t : Files W} {flags fd : ℕ} {r : ℤ × Files W}
    → OpenResult s flags r
    → r ≡ (pos fd, t)
    → Opened s t flags fd
OpenResult-Opened {s} {t} {flags} {fd} (opened fd' t' o) e =
    let same_fd : fd' ≡ fd = ground (arith, ap (λ k. k.0) e) in
    subst (λ k. Opened s k flags fd) (ap (λ k. k.1) e) (subst (λ k. Opened s t' flags k) same_fd o)
OpenResult-Opened (refused t' same) e = absurd (ground (arith, ap (λ k. k.0) e))
