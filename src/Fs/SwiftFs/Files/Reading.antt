-- ===== src/Fs/SwiftFs/Files/Reading.antt =====
-- swiftfs2_read: it changes no block's bytes.
use swift_bsd.Prelude.{
  ℕ, zero, suc, ◌+◌, ◌-◌, ◌/◌, ◌%◌, ◌^◌, ◌≤◌, ◌<◌, ◌≡◌, refl, sym, ◌∙◌, arith, Bool, true, false,
  Option, some, List, ◌==◌, ◌&&◌, ◌||◌, ltb, leb, if◌then◌else◌, add32, subst, length,
  length-append,
}
use swift_bsd.Fs.Pipe.{copy_out}
use swift_bsd.Fs.SwiftFs.Cache.{cache_get}
use swift_bsd.Fs.SwiftFs.Cache.View.{IsCoherent, view}
use swift_bsd.Fs.SwiftFs.Cache.Get.{cache_get-Got}
use swift_bsd.Fs.SwiftFs.State.{SwiftFs}
use swift_bsd.Fs.SwiftFs.Inodes.{Inode, size, inode_read, indirect}
use swift_bsd.Fs.SwiftFs.Inodes.Table.{inode_read-Read}
use swift_bsd.Fs.SwiftFs.Bmap.{
  Mapped, bmap_direct, bmap_entry, bmap_indirect, bmap_read, direct_count, indirect_ents,
}
use swift_bsd.Fs.SwiftFs.Files.{swiftfs2_read, read_at, read_loop, not_open, chunk_at, to_read}

-- The cache is coherent and every block has the bytes it had.
pub record Same (fs t : SwiftFs) : Type 0 where
  pub coherent : IsCoherent t.cache
  pub blocks : (b : ℕ) → view t.cache b ≡ view fs.cache b

Same-refl : (fs : SwiftFs) → IsCoherent fs.cache → Same fs fs
Same-refl fs v = record { coherent = v; blocks = λ b. refl }

Same-trans : {a b c : SwiftFs} → Same a b → Same b c → Same a c
Same-trans p q = record { coherent = q.coherent; blocks = λ b. q.blocks b ∙ p.blocks b }

Same-if :
    (fs : SwiftFs) (b : Bool) (x y : Mapped)
    → Same fs x.fs
    → Same fs y.fs
    → Same fs (if b then x else y).fs
Same-if fs true x y hx hy = hx
Same-if fs false x y hx hy = hy

and_false : (b : Bool) → (b && false) ≡ false
and_false true = refl
and_false false = refl

cached :
    (fs : SwiftFs) (b : ℕ)
    → IsCoherent fs.cache
    → Same fs (record fs { cache = (cache_get b 0 fs.cache).1 })
cached fs b v =
    let g = cache_get-Got fs.cache b v in record { coherent = g.coherent; blocks = g.same }

bmap_entry-Same :
    (inode : Inode) (l : ℕ) (fs : SwiftFs)
    → IsCoherent fs.cache
    → Same fs (bmap_entry inode l false fs).fs
unfolding bmap_entry
bmap_entry-Same inode l fs v = rw (and_false _) (cached fs (indirect inode) v)

bmap_direct-Same :
    (inode : Inode) (l : ℕ) (fs : SwiftFs)
    → IsCoherent fs.cache
    → Same fs (bmap_direct inode l false fs).fs
unfolding bmap_direct
bmap_direct-Same inode l fs v = rw (and_false _) (Same-refl fs v)

bmap_indirect-Same :
    (inode : Inode) (l : ℕ) (fs : SwiftFs)
    → IsCoherent fs.cache
    → Same fs (bmap_indirect inode l false fs).fs
unfolding bmap_indirect
bmap_indirect-Same inode l fs v =
    Same-if fs (indirect inode == 0) _ _ (Same-refl fs v) (bmap_entry-Same inode l fs v)

bmap_read-Same :
    (inode : Inode) (l : ℕ) (fs : SwiftFs)
    → IsCoherent fs.cache
    → Same fs (bmap_read inode l false fs).fs
unfolding bmap_read
bmap_read-Same inode l fs v = Same-if fs (ltb l direct_count) _ _ (bmap_direct-Same inode l fs v) (
    Same-if fs (ltb (l - direct_count) indirect_ents) _ _
      (bmap_indirect-Same inode (l - direct_count) fs v) (Same-refl fs v))

-- what reading comes to: at most the bytes asked for, and no change
pub record Reads (n : ℕ) (fs : SwiftFs) (r : List ℕ × SwiftFs) : Type 0 where
  pub same : Same fs r.1
  pub bound : length r.0 ≤ n

Reads-if :
    (n : ℕ) (fs : SwiftFs) (b : Bool) (x y : List ℕ × SwiftFs)
    → (b ≡ true → Reads n fs x)
    → (b ≡ false → Reads n fs y)
    → Reads n fs (if b then x else y)
Reads-if n fs true x y hx hy = hx refl
Reads-if n fs false x y hx hy = hy refl

length-copy_out : (bytes : ℕ → ℕ) (off n : ℕ) → length (copy_out bytes off n) ≡ n
unfolding copy_out
length-copy_out bytes off zero = refl
length-copy_out bytes off (suc n) = omega (arith, length-copy_out bytes (off + 1) n)

chunk-bound : (at left : ℕ) → chunk_at at left ≤ left
chunk-bound at left = ground arith

read_loop-Reads :
    (fuel at left : ℕ) (inode : Inode) (fs : SwiftFs)
    → IsCoherent fs.cache
    → Reads left fs (read_loop fuel at left inode fs)
unfolding read_loop
read_loop-Reads zero at left inode fs v = record { same = Same-refl fs v; bound = omega arith }
read_loop-Reads (suc fuel) at left inode fs v =
    let m : Mapped = bmap_read inode (at / 4096) false fs in
    let mapped : Same fs m.fs = bmap_read-Same inode (at / 4096) fs v in
    let found = cached m.fs m.block mapped.coherent in
    let chunk : ℕ = chunk_at at left in
    let rest =
      read_loop-Reads fuel (add32 at chunk) (left - chunk) m.inode
        (record (m.fs) { cache = (cache_get m.block 0 m.fs.cache).1 }) found.coherent in
    Reads-if left fs (left == 0) _ _ (λ e. record { same = Same-refl fs v; bound = omega arith })
      (λ e.
        Reads-if left fs (m.block == 0) _ _
          (λ none_there. record { same = mapped; bound = omega arith })
          (λ there. record {
            same = Same-trans mapped (Same-trans found rest.same);
            bound = omega (
              arith,
              chunk-bound at left,
              rest.bound,
              length-append
                  (copy_out
                    ((cache_get m.block 0 m.fs.cache).1.entries
                      (cache_get m.block 0 m.fs.cache).0).bytes
                    (at % 4096) chunk)
                  (read_loop fuel (add32 at chunk) (left - chunk) m.inode
                    (record (m.fs) { cache = (cache_get m.block 0 m.fs.cache).1 })).0,
              length-copy_out
                  ((cache_get m.block 0 m.fs.cache).1.entries
                    (cache_get m.block 0 m.fs.cache).0).bytes
                  (at % 4096) chunk,
            );
          }))

-- what swiftfs2_read comes to: no block changes, and at most the bytes asked for are put into the buffer
pub record ReadResult (count : ℕ) (fs : SwiftFs) (r : Option (List ℕ) × SwiftFs) : Type 0 where
  pub same : Same fs r.1
  pub bound : (bytes : List ℕ) → r.0 ≡ some bytes → length bytes ≤ count

ReadResult-if :
    (count : ℕ) (fs : SwiftFs) (b : Bool) (x y : Option (List ℕ) × SwiftFs)
    → (b ≡ true → ReadResult count fs x)
    → (b ≡ false → ReadResult count fs y)
    → ReadResult count fs (if b then x else y)
ReadResult-if count fs true x y hx hy = hx refl
ReadResult-if count fs false x y hx hy = hy refl

some_bytes : {xs ys : List ℕ} → some xs ≡ some ys → xs ≡ ys
some_bytes e = cc

inode_read-fds : (fs : SwiftFs) (ino : ℕ) → (inode_read ino fs).1.fds ≡ fs.fds
unfolding inode_read
inode_read-fds fs ino = refl

read_at-Result :
    (fd count : ℕ) (fs s : SwiftFs) (inode : Inode)
    → Same fs s
    → (s.fds fd).pos < 2 ^ 32
    → count < 2 ^ 32
    → ReadResult count fs (read_at fd count (inode, s))
unfolding read_at
read_at-Result fd count fs s inode same pos_fits count_fits =
    let at : ℕ = (s.fds fd).pos in
    let n : ℕ = to_read at count (size inode) in
    let done = read_loop-Reads n at n inode s same.coherent in
    ReadResult-if count fs (leb (size inode) at) _ _
      (λ at_end. record { same = same; bound = λ bytes e. ground (arith, e) })
      (λ before_end. record {
        same = record {
          coherent = done.same.coherent;
          blocks = λ b. done.same.blocks b ∙ same.blocks b;
        };
        bound = λ bytes e.
            let less : n ≤ count = ground (arith, before_end) in
            subst (λ xs. length xs ≤ count) (some_bytes e) (omega (arith, less, done.bound));
      })

-- With a coherent cache and numbers of 32 bits, swiftfs2_read keeps the cache coherent, changes the bytes of
-- no block, and puts at most as many bytes into the buffer as it is asked for.
pub swiftfs2_read-Result :
    (fd count : ℕ) (fs : SwiftFs)
    → IsCoherent fs.cache
    → (fs.fds fd).pos < 2 ^ 32
    → count < 2 ^ 32
    → ReadResult count fs (swiftfs2_read fd count fs)
unfolding swiftfs2_read
swiftfs2_read-Result fd count fs v pos_fits count_fits =
    let r = inode_read-Read fs (fs.fds fd).inode v in
    ReadResult-if count fs (not_open fd fs || (fs.fds fd).flags == 1) _ _
      (λ refused. record { same = Same-refl fs v; bound = λ bytes e. absurd (ground (arith, e)) })
      (λ usable.
        read_at-Result fd count fs (inode_read (fs.fds fd).inode fs).1
          (inode_read (fs.fds fd).inode fs).0 (record { coherent = r.coherent; blocks = r.same })
          (subst (λ f. (f fd).pos < 2 ^ 32) (sym (inode_read-fds fs (fs.fds fd).inode)) pos_fits)
          count_fits)
