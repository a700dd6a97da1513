-- ===== src/Fs/Vfs/Share.antt =====
-- vfs_dup, vfs_close and vfs_dup2 of src/kernel/fs/vfs.c: descriptors that share a file.
use swift_bsd.Prelude.{
  ◌∙◌, List, ℕ, suc, ◌+◌, ◌-◌, ◌<◌, ◌≡◌, ◌≢◌, ◌⊎◌, inl, inr, refl, arith, none, some, ℤ, pos,
  Option-cases, ap,
}
use swift_bsd.Fs.Pipe.{Pipe, pipe_write_close_op}
use swift_bsd.Fs.Vfs.{
  vfs_max_files, vfs_open, fs_ops, pipe_write_ops, File, Devices, Files, done, failure, closed_file,
  open_index, fd_alloc, set_file, vfs_dup, share, vfs_close, close_file, put_pipe,
}
use swift_bsd.Fs.Vfs.Table.{IsFree, fd_alloc-IsFree, OnlyAt, OpenResult-Opened, vfs_open-OpenResult}

module _ {W : Type 0} where
  -- what a successful vfs_dup has done
  pub record Shared (s t : Files W) (old new : ℕ) : Type 0 where
    pub copied : t.fds new ≡ record (s.fds old) { refcount = 1 }
    pub counted : t.fds old ≡ record (s.fds old) { refcount = (s.fds old).refcount + 1 }
    pub others : (i : ℕ) → i ≢ old → i ≢ new → t.fds i ≡ s.fds i
    pub same_pipes : t.pipes ≡ s.pipes

  pub share-Shared : (old new : ℕ) (s : Files W) → old ≢ new → Shared s (share old new s) old new
  share-Shared old new s ne = record {
    copied = ground arith;
    counted = ground arith;
    others = λ i p q. ground arith;
    same_pipes = refl;
  }

  -- vfs_dup of a descriptor in use returns the lowest free descriptor from 2 on as a copy in use once,
  -- counts one more use of the old one, and leaves every other slot and every pipe as it was; it
  -- returns -1 and changes nothing if no descriptor is free.
  pub vfs_dup-Shared :
      (old : ℕ) (s : Files W)
      → old < vfs_max_files
      → (s.fds old).refcount ≢ 0
      → ((new : ℕ) × (t : Files W) × (vfs_dup (pos old) s ≡ (pos new, t))
          × IsFree s.fds new
          × Shared s t old new)
        ⊎ ((vfs_dup (pos old) s ≡ (failure, s)) × (fd_alloc s.fds ≡ none))
  unfolding vfs_dup
  vfs_dup-Shared old s inside used =
      let at : open_index s.fds (pos old) ≡ some old = ground arith in
      elim (Option-cases (fd_alloc s.fds)) [
        | inl full ↦ inr (ground (arith, at), full)
        | inr (new, found) ↦
            let f = fd_alloc-IsFree s.fds found in
            let ne : old ≢ new = λ e. used (ap (λ k. (s.fds k).refcount) e ∙ f.free) in
            inl (new, share old new s, ground (arith, at), f, share-Shared old new s ne)
      ]

  module _ (D : Devices W) where
    -- vfs_close of a descriptor that is counted more than once lowers its count and calls nothing.
    pub vfs_close_shared :
        (fd : ℕ) (s : Files W)
        → fd < vfs_max_files
        → 1 < (s.fds fd).refcount
        → vfs_close D (pos fd) s
          ≡ done (pos 0, set_file fd (record (s.fds fd) { refcount = (s.fds fd).refcount - 1 }) s)
    unfolding vfs_close
    vfs_close_shared fd s inside more = ground arith

    close-writer :
        (f : File) (a k : ℕ) (p : Pipe) (s : Files W)
        → f.ops ≡ pipe_write_ops
        → f.priv ≡ a
        → s.pipes a ≡ some p
        → p.readers ≡ pos (suc k)
        → p.writers ≡ pos 1
        → close_file D f s ≡ done (pos 0, put_pipe a (some (record p { writers = pos 0 })) s)
    unfolding close_file pipe_write_close_op
    close-writer f a k p s write at pipe readers writers = ground arith

    -- The duplicate of the only write end of a pipe, once closed, leaves the pipe without writers,
    -- although the descriptor that was duplicated is still in use, twice.
    pub vfs_close-vfs_dup :
        (old new a k : ℕ) (p : Pipe) (s : Files W)
        → old < vfs_max_files
        → (s.fds old).refcount ≡ 1
        → (s.fds old).ops ≡ pipe_write_ops
        → (s.fds old).priv ≡ a
        → s.pipes a ≡ some p
        → p.readers ≡ pos (suc k)
        → p.writers ≡ pos 1
        → fd_alloc s.fds ≡ some new
        → (u : Files W) × (vfs_close D (pos new) (vfs_dup (pos old) s).1 ≡ done (pos 0, u))
          × (u.pipes a ≡ some (record p { writers = pos 0 }))
          × ((u.fds old).refcount ≡ 2)
          × ((u.fds old).ops ≡ pipe_write_ops)
    unfolding vfs_close vfs_dup
    vfs_close-vfs_dup old new a k p s inside once write at pipe readers writers found =
        let f = fd_alloc-IsFree s.fds found in
        let ne : old ≢ new = λ e. omega (arith, ap (λ k. (s.fds k).refcount) e, f.free) in
        let dup : vfs_dup (pos old) s ≡ (pos new, share old new s) = ground arith in
        let t = share old new s in
        let g : File = record (t.fds new) { refcount = (t.fds new).refcount - 1 } in
        let v = set_file new g t in
        let closed = close-writer g a k p v (ground arith) (ground arith) pipe readers writers in
        let u = set_file new closed_file (put_pipe a (some (record p { writers = pos 0 })) v) in
        (u, rw dup (ground (arith, closed, f.high)), ground arith, ground arith, ground arith)

    close-clears :
        (fd id : ℕ) (t : Files W)
        → fd < vfs_max_files
        → (t.fds fd).refcount ≡ 1
        → (t.fds fd).ops ≡ fs_ops id
        → (ret : ℤ) × (u : Files W) × (vfs_close D (pos fd) t ≡ done (ret, u))
          × (u.fds fd ≡ closed_file)
          × OnlyAt fd t u
    unfolding vfs_close close_file
    close-clears fd id t inside once owner =
        let f : File = record (t.fds fd) { refcount = (t.fds fd).refcount - 1 } in
        let r = (D.fs id).close_op (t.fds fd).priv t.world in
        (
          r.0,
          set_file fd closed_file (record (set_file fd f t) { world = r.1 }),
          ground arith,
          ground arith,
          λ i ne. ground arith,
        )

    -- Closing the descriptor that vfs_open has returned succeeds in giving its slot back: the slot is
    -- cleared, and every other slot is as it was before the call of vfs_open.
    pub vfs_close-vfs_open :
        (path : List ℕ) (flags fd : ℕ) (s t : Files W)
        → vfs_open D path flags s ≡ (pos fd, t)
        → (ret : ℤ) × (u : Files W) × (vfs_close D (pos fd) t ≡ done (ret, u))
          × (u.fds fd ≡ closed_file)
          × OnlyAt fd s u
    vfs_close-vfs_open path flags fd s t e =
        let o = OpenResult-Opened (vfs_open-OpenResult D path flags s) e in
        let c = close-clears fd o.owner.0 t o.slot.high o.started.2 o.owner.1 in
        (c.0, c.1, c.2, c.3, λ i ne. c.4 i ne ∙ o.others i ne)
