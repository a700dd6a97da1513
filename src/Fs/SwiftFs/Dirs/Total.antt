-- ===== src/Fs/SwiftFs/Dirs/Total.antt =====
-- The loop of dir_add_entry ends: behind the last block that bmap_read can map it appends one.
use swift_bsd.Prelude.{
  length, leb, ◌&&◌, ◌||◌, ℕ, zero, suc, ◌+◌, ◌-◌, ◌≤◌, ◌<◌, ◌≡◌, refl, arith, Bool, true, false,
  Option, some, List, ◌==◌, ltb, if◌then◌else◌, Bool-cases, inl, inr,
}
use swift_bsd.Fs.SwiftFs.State.{SwiftFs}
use swift_bsd.Fs.SwiftFs.Inodes.{Inode}
use swift_bsd.Fs.SwiftFs.Bmap.{bmap_read, direct_count, indirect_ents}
use swift_bsd.Fs.SwiftFs.Paths.{dir_fuel}
use swift_bsd.Fs.SwiftFs.Dirs.{
  Hunt, at, absent, endless, find_slot, dirent_inode, rec_len, reclen, open_block, add_loop,
  place_or,
}
use swift_bsd.Fs.SwiftFs.Cache.{Data}

-- bmap_read maps no block from 12 + 1024 on.
pub bmap_read-end :
    (inode : Inode) (l : ℕ) (create : Bool) (fs : SwiftFs)
    → 1036 ≤ l
    → (bmap_read inode l create fs).block ≡ 0
unfolding bmap_read
bmap_read-end inode l create fs h =
    let direct : ltb l direct_count ≡ false = ground arith in
    let indirect : ltb (l - direct_count) indirect_ents ≡ false = ground arith in
    rw direct (rw indirect refl)

-- whether the scan of a block comes to an end
abbrev ends : Hunt → Bool
ends (at p) = true
ends absent = true
ends endless = false

if-ends :
    (b c : Bool) (p : ℕ) (h : Hunt)
    → (b ≡ false → c ≡ false → ends h ≡ true)
    → ends (if b then absent else if c then at p else h) ≡ true
if-ends true c p h e = refl
if-ends false true p h e = refl
if-ends false false p h e = e refl refl

not_last : (a b : Bool) (n : ℕ) → (a && b || n == 0) ≡ false → 0 < n
not_last a b n h = ground (arith, h)

inside_block : (p : ℕ) → leb 4096 p ≡ false → p < 4096
inside_block p h = ground (arith, h)

-- Each step of the scan goes on by at least one byte, so it ends within the block.
find_slot-ends :
    (fuel len : ℕ) (bytes : Data) (p : ℕ)
    → 0 < fuel
    → 4097 ≤ p + fuel
    → ends (find_slot fuel len bytes p) ≡ true
unfolding find_slot
find_slot-ends zero len bytes p some_fuel enough = absurd (omega arith)
find_slot-ends (suc fuel) len bytes p some_fuel enough =
    if-ends (leb 4096 p) _ p _ (λ inside goes_on.
      let step =
        not_last (dirent_inode bytes p == 0) (leb len (rec_len bytes p)) (rec_len bytes p)
          goes_on in
      let before = inside_block p inside in
      find_slot-ends fuel len bytes (p + rec_len bytes p) (omega (arith, before))
        (omega (arith, step)))

place_or-total :
    (slot : Hunt) (place : ℕ → Bool × SwiftFs) (rest : Option (Bool × SwiftFs))
    → ends slot ≡ true
    → ((r : Bool × SwiftFs) × (rest ≡ some r))
    → (r : Bool × SwiftFs) × (place_or slot place rest ≡ some r)
place_or-total (at p) place rest e h = (place p, refl)
place_or-total absent place rest e h = h
place_or-total endless place rest e h = absurd (cc)

if-total :
    (b : Bool) (x y : Option (Bool × SwiftFs))
    → ((r : Bool × SwiftFs) × (x ≡ some r))
    → (b ≡ false → (r : Bool × SwiftFs) × (y ≡ some r))
    → (r : Bool × SwiftFs) × ((if b then x else y) ≡ some r)
if-total true x y hx hy = hx
if-total false x y hx hy = hy refl

-- The scan that a round makes of its block comes to an end.
slot-ends :
    (inode : Inode) (bi : ℕ) (name : List ℕ) (fs : SwiftFs)
    → let m = bmap_read inode bi false fs in
      let (i, t) = open_block m.block m.fs in
      ends (find_slot 4097 (reclen (length name)) (t.cache.entries i).bytes 0) ≡ true
slot-ends inode bi name fs =
    let m = bmap_read inode bi false fs in
    let (i, t) = open_block m.block m.fs in
    find_slot-ends 4097 (reclen (length name)) (t.cache.entries i).bytes 0 (omega arith)
      (omega arith)

-- With a round for every block from `bi` to the first that cannot be mapped, the loop of dir_add_entry comes to
-- an end, and so does the scan of each block, whatever the directory's blocks hold.
pub add_loop-total :
    (fuel dir_ino child file_type : ℕ) (name : List ℕ) (inode : Inode) (bi : ℕ) (fs : SwiftFs)
    → bi < dir_fuel
    → dir_fuel ≤ bi + fuel
    → (r : Bool × SwiftFs) × (add_loop fuel dir_ino child file_type name inode bi fs ≡ some r)
unfolding add_loop
add_loop-total zero dir_ino child file_type name inode bi fs low high = absurd (omega arith)
add_loop-total (suc fuel) dir_ino child file_type name inode bi fs low high =
    if-total ((bmap_read inode bi false fs).block == 0) _ _ (_, refl)
      (λ there.
        let before : bi < 1036 = elim (Bool-cases (ltb bi 1036)) [
          | inl less ↦ ground arith
          | inr more ↦
              let end = bmap_read-end inode bi false fs (ground arith) in
              absurd (ground (arith, end))
        ] in
        place_or-total _ _ _ (slot-ends inode bi name fs) (
          add_loop-total fuel dir_ino child file_type name _ (bi + 1) _ (omega arith)
            (omega arith)))
