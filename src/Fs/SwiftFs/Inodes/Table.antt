-- ===== src/Fs/SwiftFs/Inodes/Table.antt =====
-- The inode table: inode_read and inode_write through the block cache.
use swift_bsd.Prelude.{
  ℕ, ◌+◌, ◌*◌, ◌/◌, ◌%◌, ◌^◌, ◌≤◌, ◌<◌, ◌≡◌, ◌≢◌, refl, sym, ap, ◌∙◌, inl, inr, ◌⊎◌, arith, ◌==◌,
  ltb, add32, Bool-cases, fun_ext,
}
use swift_bsd.Fs.SwiftFs.Cache.{Data}
use swift_bsd.Fs.SwiftFs.Cache.View.{IsCoherent, view, view-Holds}
use swift_bsd.Fs.SwiftFs.Cache.Get.{cache_get-Got}
use swift_bsd.Fs.SwiftFs.Cache.Modify.{Modified, modify-Modified}
use swift_bsd.Fs.SwiftFs.State.{SwiftFs}
use swift_bsd.Fs.SwiftFs.Bytes.{copy_into}
use swift_bsd.Fs.SwiftFs.Inodes.{
  Inode, sizeof_inode, inode_at, inode_block_and_offset, inode_read, inode_write,
}

abbrev pub block_of : SwiftFs → ℕ → ℕ
block_of fs ino = (inode_block_and_offset ino fs).0

abbrev pub offset_of : SwiftFs → ℕ → ℕ
offset_of fs ino = (inode_block_and_offset ino fs).1

-- what the file system holds as inode `ino`
pub inode_of : SwiftFs → ℕ → Inode
inode_of fs ino = inode_at (view fs.cache (block_of fs ino)) (offset_of fs ino)

-- The inode tables of the groups do not overlap.
unfoldable pub TablesApart : SwiftFs → Type 0
TablesApart fs =
    (g : ℕ)
    → g < fs.nr_groups
    → ((fs.gd g).inode_table_block + 128 ≤ 2 ^ 32)
      × ((h : ℕ)
          → h < fs.nr_groups
          → g ≢ h
          → ((fs.gd g).inode_table_block + 128 ≤ (fs.gd h).inode_table_block)
            ⊎ ((fs.gd h).inode_table_block + 128 ≤ (fs.gd g).inode_table_block))

apart-same_group :
    (i j t : ℕ)
    → i / 4096 ≡ j / 4096
    → i ≢ j
    → t + 128 ≤ 2 ^ 32
    → (add32 t (i % 4096 / 32) ≢ add32 t (j % 4096 / 32))
      ⊎ ((i % 4096 % 32 * 128 + 128 ≤ j % 4096 % 32 * 128)
          ⊎ (j % 4096 % 32 * 128 + 128 ≤ i % 4096 % 32 * 128))
apart-same_group i j t e ne h = elim (Bool-cases (i % 4096 / 32 == j % 4096 / 32)) [
  | inl same ↦
      let block : i % 4096 / 32 ≡ j % 4096 / 32 = ground arith in
      let slots : i % 4096 % 32 ≢ j % 4096 % 32 = λ at. ne (omega arith) in
      elim (Bool-cases (ltb (i % 4096 % 32) (j % 4096 % 32))) [
        | inl less ↦
            let lt : i % 4096 % 32 < j % 4096 % 32 = ground arith in inr (inl (omega arith))
        | inr more ↦
            let ge : j % 4096 % 32 ≤ i % 4096 % 32 = ground arith in inr (inr (omega arith))
      ]
  | inr other ↦
      let blocks : i % 4096 / 32 ≢ j % 4096 / 32 = ground arith in inl (λ at. blocks (omega arith))
]

apart-other_group :
    (a b t u : ℕ)
    → a < 128
    → b < 128
    → t + 128 ≤ 2 ^ 32
    → u + 128 ≤ 2 ^ 32
    → (t + 128 ≤ u) ⊎ (u + 128 ≤ t)
    → add32 t a ≢ add32 u b
apart-other_group a b t u p q ft fu (inl h) at = omega arith
apart-other_group a b t u p q ft fu (inr h) at = omega arith

-- Two inodes of the table have different places: another block, or offsets that are apart.
places :
    (fs : SwiftFs)
    → TablesApart fs
    → (i j : ℕ) → i < fs.nr_groups * 4096
    → j < fs.nr_groups * 4096
    → i ≢ j
    → (block_of fs i ≢ block_of fs j)
      ⊎ ((offset_of fs i + 128 ≤ offset_of fs j) ⊎ (offset_of fs j + 128 ≤ offset_of fs i))
unfolding inode_block_and_offset TablesApart
places fs apart i j p q ne =
    let gi : i / 4096 < fs.nr_groups = omega arith in
    let gj : j / 4096 < fs.nr_groups = omega arith in
    let (fits_i, apart_i) = apart (i / 4096) gi in
    let (fits_j, apart_j) = apart (j / 4096) gj in
    elim (Bool-cases (i / 4096 == j / 4096)) [
      | inl same ↦
          let e : i / 4096 ≡ j / 4096 = ground arith in rw e (apart-same_group i j _ e ne fits_j)
      | inr other ↦ inl (
          apart-other_group _ _ _ _ (omega arith) (omega arith) fits_i fits_j
            (apart_i (j / 4096) gj (ground arith)))
    ]

-- The bytes of an inode in a block that another struct, or the same, is copied into.
inode_at-copy_into :
    (d x : Data) (at k : ℕ) → k < sizeof_inode → inode_at (copy_into d at x sizeof_inode) at k ≡ x k
unfolding inode_at copy_into
inode_at-copy_into d x at k p = ground arith

inode_at-copy_into_apart :
    (d x : Data) (at other : ℕ)
    → (at + 128 ≤ other) ⊎ (other + 128 ≤ at)
    → inode_at (copy_into d at x sizeof_inode) other ≡ inode_at d other
unfolding inode_at copy_into
inode_at-copy_into_apart d x at other h = fun_ext (λ k. ground arith)

-- what inode_read promises
pub record Read (fs : SwiftFs) (ino : ℕ) (r : Inode × SwiftFs) : Type 0 where
  pub coherent : IsCoherent r.1.cache
  pub gives : (k : ℕ) → k < sizeof_inode → r.0 k ≡ inode_of fs ino k
  pub same : (b : ℕ) → view r.1.cache b ≡ view fs.cache b
  pub gd : r.1.gd ≡ fs.gd

pub inode_read-Read :
    (fs : SwiftFs) (ino : ℕ) → IsCoherent fs.cache → Read fs ino (inode_read ino fs)
unfolding inode_read inode_of
inode_read-Read fs ino v =
    let g = cache_get-Got fs.cache (block_of fs ino) v in
    record {
      coherent = g.coherent;
      gives = λ k p.
          ap (λ d. inode_at d (offset_of fs ino) k)
            (sym (view-Holds g.coherent g.held) ∙ g.same (block_of fs ino));
      same = g.same;
      gd = refl;
    }

module _ (fs : SwiftFs) (ino : ℕ) (x : Inode) (v : IsCoherent fs.cache) where
  inode_write-Modified :
      Modified fs.cache
        (block_of fs ino)
        (λ bytes. copy_into bytes (offset_of fs ino) x sizeof_inode)
        (inode_write ino x fs).cache
  unfolding inode_write
  inode_write-Modified = modify-Modified fs.cache (block_of fs ino) _ v

  places-inode_write :
      (j : ℕ)
      → inode_of (inode_write ino x fs) j
        ≡ inode_at (view (inode_write ino x fs).cache (block_of fs j)) (offset_of fs j)
  unfolding inode_write inode_of inode_block_and_offset
  places-inode_write j = refl

  inode_of-written : (k : ℕ) → k < sizeof_inode → inode_of (inode_write ino x fs) ino k ≡ x k
  inode_of-written k p =
      ap (λ f. f k)
        (places-inode_write ino ∙ ap (λ d. inode_at d (offset_of fs ino)) inode_write-Modified.at)
      ∙ inode_at-copy_into _ x (offset_of fs ino) k p

  inode_of-other :
      TablesApart fs
      → (j : ℕ) → ino < fs.nr_groups * 4096
      → j < fs.nr_groups * 4096
      → ino ≢ j
      → inode_of (inode_write ino x fs) j ≡ inode_of fs j
  unfolding inode_of
  inode_of-other apart j p q ne = elim (Bool-cases (block_of fs ino == block_of fs j)) [
    | inl same ↦
        let e : block_of fs ino ≡ block_of fs j = ground arith in
        places-inode_write j
        ∙ ap (λ d. inode_at d (offset_of fs j))
            (ap (view (inode_write ino x fs).cache) (sym e) ∙ inode_write-Modified.at)
        ∙ (elim (places fs apart ino j p q ne) [
          | inl blocks ↦ absurd (blocks e)
          | inr offsets ↦ inode_at-copy_into_apart _ x (offset_of fs ino) (offset_of fs j) offsets
        ])
        ∙ ap (λ b. inode_at (view fs.cache b) (offset_of fs j)) e
    | inr other ↦
        places-inode_write j
        ∙ ap (λ d. inode_at d (offset_of fs j))
            (inode_write-Modified.other (block_of fs j) (λ e. absurd (ground (arith, e))))
  ]

-- what inode_write promises
pub record Stored (fs : SwiftFs) (ino : ℕ) (x : Inode) (t : SwiftFs) : Type 0 where
  pub coherent : IsCoherent t.cache
  pub reads : (k : ℕ) → k < sizeof_inode → (inode_read ino t).0 k ≡ x k
  pub others :
      (j k : ℕ)
      → j < fs.nr_groups * 4096
      → ino ≢ j
      → k < sizeof_inode
      → (inode_read j t).0 k ≡ (inode_read j fs).0 k

-- With a coherent cache and inode tables that do not overlap, inode_read after inode_write of the same inode
-- gives what was written, and of any other inode what it gave before.
pub inode_write-Stored :
    (fs : SwiftFs) (ino : ℕ) (x : Inode)
    → IsCoherent fs.cache
    → TablesApart fs
    → ino < fs.nr_groups * 4096
    → Stored fs ino x (inode_write ino x fs)
inode_write-Stored fs ino x v apart p =
    let coherent = (inode_write-Modified fs ino x v).coherent in
    record {
      coherent = coherent;
      reads = λ k q. (inode_read-Read _ ino coherent).gives k q ∙ inode_of-written fs ino x v k q;
      others = λ j k q ne r.
          (inode_read-Read _ j coherent).gives k r
          ∙ ap (λ f. f k) (inode_of-other fs ino x v apart j p q ne)
          ∙ sym ((inode_read-Read fs j v).gives k r);
    }
