-- ===== src/Fs/Vfs/Io.antt =====
-- vfs_read, vfs_write and vfs_fstat of src/kernel/fs/vfs.c, with the operations of the serial line.
use swift_bsd.Prelude.{ℕ, zero, suc, Option, none, some, List, [], ◌∷◌, ℤ, pos, length}
use swift_bsd.Fs.Pipe.{Status, returns, pipe_read_op, pipe_write_op}
use swift_bsd.Fs.Vfs.{
  no_ops, serial_ops, pipe_read_ops, pipe_write_ops, fs_ops, Stat, Devices, Files, Outcome, done,
  null_call, dangling, failure, open_index, set_file, put_pipe,
}

module _ {W : Type 0} (D : Devices W) where
  -- ser_read and ser_write
  unfoldable pub ser_read : ℕ → W → List ℕ × W
  ser_read zero w = ([], w)
  ser_read (suc n) w =
      let (c, w') = D.serial_getc w in let (cs, w'') = ser_read n w' in (c ∷ cs, w'')

  unfoldable pub ser_write : List ℕ → W → W
  ser_write [] w = w
  ser_write (c ∷ cs) w = ser_write cs (D.serial_putc c w)

  -- `ops->read(priv, buf, sz, &pos)`: the status, the bytes in `buf`, and the state
  unfoldable pub read_file : ℕ → ℕ → Files W → Outcome (Status × List ℕ × Files W)
  unfolding ser_read
  read_file i sz s =
      let f = s.fds i in
      elim f.ops [
        | no_ops ↦ null_call
        | serial_ops ↦
            let r = ser_read sz s.world in done (returns (pos sz), r.0, record s { world = r.1 })
        | pipe_read_ops ↦ elim (s.pipes f.priv) [
          | none ↦ dangling
          | some p ↦ let r = pipe_read_op p 0 sz in done (r.0, r.1, put_pipe f.priv (some r.2) s)
        ]
        | pipe_write_ops ↦ null_call
        | fs_ops id ↦
            let r = (D.fs id).read_op f.priv sz f.pos s.world in
            done (returns r.0, r.1, set_file i (record f { pos = r.2 }) (record s { world = r.3 }))
      ]

  unfoldable pub vfs_read : ℤ → ℕ → Files W → Outcome (Status × List ℕ × Files W)
  unfolding read_file
  vfs_read fd sz s = elim (open_index s.fds fd) [
    | none ↦ done (returns failure, [], s)
    | some i ↦ read_file i sz s
  ]

  unfoldable pub write_file : ℕ → List ℕ → Files W → Outcome (Status × Files W)
  unfolding ser_write
  write_file i bytes s =
      let f = s.fds i in
      elim f.ops [
        | no_ops ↦ null_call
        | serial_ops ↦
            done (returns (pos (length bytes)), record s { world = ser_write bytes s.world })
        | pipe_read_ops ↦ null_call
        | pipe_write_ops ↦ elim (s.pipes f.priv) [
          | none ↦ dangling
          | some p ↦ let r = pipe_write_op p 0 bytes in done (r.0, put_pipe f.priv (some r.2) s)
        ]
        | fs_ops id ↦
            let r = (D.fs id).write_op f.priv bytes f.pos s.world in
            done (returns r.0, set_file i (record f { pos = r.1 }) (record s { world = r.2 }))
      ]

  unfoldable pub vfs_write : ℤ → List ℕ → Files W → Outcome (Status × Files W)
  unfolding write_file
  vfs_write fd bytes s = elim (open_index s.fds fd) [
    | none ↦ done (returns failure, s)
    | some i ↦ write_file i bytes s
  ]

  -- the result, what is put into `*st`, and the state
  unfoldable pub vfs_fstat : ℤ → Files W → Outcome (ℤ × Option Stat × Files W)
  vfs_fstat fd s = elim (open_index s.fds fd) [
    | none ↦ done (failure, none, s)
    | some i ↦ elim (s.fds i).ops [
      | no_ops ↦ null_call
      | serial_ops ↦ done (failure, none, s)
      | pipe_read_ops ↦ null_call
      | pipe_write_ops ↦ null_call
      | fs_ops id ↦
          let r = (D.fs id).fstat_op (s.fds i).priv s.world in
          done (r.0, r.1, record s { world = r.2 })
    ]
  ]
